-- ===== src/Guide/Tests.antt =====
-- Concrete reports, and the theorems of the guide applied to them.
use xreal_bsp_rgb_tool.Prelude.{◌≤◌, true, false, List, [], ◌∷◌}
use xreal_bsp_rgb_tool.Guide.{
  GuideCapabilityItem, ready, scaffolded, Assets, SdkInfo, structural_percent, operational_percent,
}
use xreal_bsp_rgb_tool.Guide.Percent.{percent_bounds}

abbrev done_item : GuideCapabilityItem
done_item = record {
  title = "A";
  guide_section = "1";
  detail = record { template = "a"; arguments = [] };
  state = ready;
  blocking = true;
}

abbrev drawn_item : GuideCapabilityItem
drawn_item = record {
  title = "B";
  guide_section = "2";
  detail = record { template = "b"; arguments = [] };
  state = scaffolded;
  blocking = true;
}

abbrev three_items : List GuideCapabilityItem
three_items = drawn_item ∷ done_item ∷ drawn_item ∷ []

abbrev all_assets : Assets
all_assets = record { vendored_wheel_available = true; vendored_pyi_available = true }

abbrev old_sdk : SdkInfo
old_sdk = record {
  runtime_qt_compatible = false;
  current_process_qt_version = "5.15";
  required_qt_version = "6.8";
  runtime_qt_version = "5.15";
  runtime_qt_source = "system";
}

percent_bounds_example :
    (operational_percent three_items ≤ structural_percent three_items)
    × (structural_percent three_items ≤ 100)
percent_bounds_example = percent_bounds three_items
