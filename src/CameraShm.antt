-- ===== src/CameraShm.antt =====
-- src/common/camera_shared_memory.cpp and include/recordlab/common/camera_shared_memory.h: the
-- frame header, the writer and the reader of the camera ring in shared memory.
pub mod Memory
pub mod Meta
pub mod Ring
