-- ===== src/Guide.antt =====
-- src/bsp/bsp_guide_status.cpp and include/recordlab/bsp/bsp_guide_status.h: how much of the guide can be
-- followed, as two percentages and a list of blocking items. A text with arguments is its template with
-- the arguments; scores are summed in an `int`, which the lists of the program do not come near to filling.
pub mod Percent
pub mod Blockers
mod Tests
use xreal_bsp_rgb_tool.Prelude.{
  ℕ, ◌+◌, ◌/◌, Bool, true, false, not, ◌||◌, ◌&&◌, List, [], ◌∷◌, ◌++◌, String, if◌then◌else◌,
  length, leb,
}
use xreal_bsp_rgb_tool.Prelude.Int.{ℤ, positive, pos_part}

pub data GuideCapabilityState : Type 0 where
  missing scaffolded ready : GuideCapabilityState

pub record Message : Type 0 where
  pub template : String
  pub arguments : List String

pub record GuideCapabilityItem : Type 0 where
  pub title : String
  pub guide_section : String
  pub detail : Message
  pub state : GuideCapabilityState
  pub blocking : Bool

unfoldable pub structural_score : GuideCapabilityState → ℕ
structural_score missing = 0
structural_score scaffolded = 45
structural_score ready = 100

unfoldable pub operational_score : GuideCapabilityState → ℕ
operational_score ready = 100
operational_score _ = 0

unfoldable pub total_score : (GuideCapabilityState → ℕ) → List GuideCapabilityItem → ℕ
total_score scorer [] = 0
total_score scorer (item ∷ items) = scorer item.state + total_score scorer items

unfoldable pub average_percent : List GuideCapabilityItem → (GuideCapabilityState → ℕ) → ℕ
average_percent [] scorer = 0
average_percent (item ∷ items) scorer = total_score scorer (item ∷ items) / length (item ∷ items)

-- GuideStatusReport::structuralPercent and operationalPercent, of the report's items.
unfoldable pub structural_percent : List GuideCapabilityItem → ℕ
structural_percent items = average_percent items structural_score

unfoldable pub operational_percent : List GuideCapabilityItem → ℕ
operational_percent items = average_percent items operational_score

unfoldable pub is_ready : GuideCapabilityState → Bool
is_ready ready = true
is_ready _ = false

-- The loop of blockingItems over the items that are left; an entry is a title with its detail.
unfoldable pub collect_blockers :
    ℤ → List (String × Message) → List GuideCapabilityItem → List (String × Message)
collect_blockers limit blockers [] = blockers
collect_blockers limit blockers (item ∷ items) =
    let skipped = collect_blockers limit blockers items in
    let pushed = blockers ++ (item.title, item.detail) ∷ [] in
    let further = collect_blockers limit pushed items in
    if not item.blocking || is_ready item.state
    then skipped
    else if positive limit && leb (pos_part limit) (length pushed)
    then pushed
    else further

-- GuideStatusReport::blockingItems
unfoldable pub blocking_items : List GuideCapabilityItem → ℤ → List (String × Message)
blocking_items items limit = collect_blockers limit [] items

unfoldable pub guide_capability_state_to_chinese : GuideCapabilityState → String
guide_capability_state_to_chinese missing = "未开始"
guide_capability_state_to_chinese scaffolded = "骨架已就位"
guide_capability_state_to_chinese ready = "已就绪"

-- What BspAssetResolver and BspSdkLocator have found, as far as `evaluate` asks.
pub record Assets : Type 0 where
  pub vendored_wheel_available : Bool
  pub vendored_pyi_available : Bool

pub record SdkInfo : Type 0 where
  pub runtime_qt_compatible : Bool
  pub current_process_qt_version : String
  pub required_qt_version : String
  pub runtime_qt_version : String
  pub runtime_qt_source : String

abbrev text_only : String → Message
text_only s = record { template = s; arguments = [] }

abbrev ready_if : Bool → GuideCapabilityState
ready_if b = if b then ready else missing

-- BspGuideStatus::evaluate
unfoldable pub evaluate : Assets → SdkInfo → List GuideCapabilityItem
evaluate assets sdk =
    let complete = assets.vendored_wheel_available && assets.vendored_pyi_available in
    (record {
      title = "XREAL SDK 资产收编";
      guide_section = "3.2 启动设备";
      detail = text_only (
          if complete
          then "wheel 与 pyi 已复制到新工程，可作为 native 适配线索。"
          else "wheel 或 pyi 尚未完整复制，本地 SDK 线索不足。");
      state = ready_if complete;
      blocking = true;
    })
    ∷ (record {
      title = "XREAL SDK 运行时兼容性";
      guide_section = "3.2 启动设备";
      detail =
          if sdk.runtime_qt_compatible
          then (record {
            template = "项目内 XREAL runtime 已满足 vendored SDK 的版本要求，可与主 GUI 的 Qt %1 并存。";
            arguments = sdk.current_process_qt_version ∷ [];
          })
          else (record {
            template =
                "当前 vendored XREAL SDK 需要独立 XREAL runtime Qt %1，当前有效版本为 %2（来源：%3）；请先运行 ./setup_xreal_runtime.sh。";
            arguments =
                sdk.required_qt_version ∷ sdk.runtime_qt_version ∷ sdk.runtime_qt_source ∷ [];
          });
      state = ready_if sdk.runtime_qt_compatible;
      blocking = true;
    })
    ∷ (record {
      title = "热插拔恢复";
      guide_section = "3.2.2 热插拔";
      detail = text_only "尚未接入断开重连、缓存清理和一键按钮复位逻辑。";
      state = missing;
      blocking = true;
    })
    ∷ []
