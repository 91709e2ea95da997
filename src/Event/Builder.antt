-- ===== src/Event/Builder.antt =====
-- evget/include/evget/event/concepts.h: what the generic code of the backends asks of a builder.
use evget.Prelude.{String, Option}
use evget.Prelude.Int.{ℤ}
use evget.Event.Enums.{DeviceType, ModifierValue}

-- BuilderHasBaseFields, with BuilderHasModifier and BuilderHasDeviceName
pub record BuilderHasBaseFields (T B : Type 0) : Type 0 where
  pub timestamp : T → B → B
  pub interval : Option ℤ → B → B
  pub device : DeviceType → B → B
  pub device_name : String → B → B
  pub device_id : String → B → B
  pub system_event : String → B → B
  pub event_source : String → B → B
  pub modifier : ModifierValue → B → B

-- BuilderHasButtonName
pub record BuilderHasButtonName (B : Type 0) : Type 0 where
  pub button_name : String → B → B

-- BuilderHasWindowFunctions
pub record BuilderHasWindowFunctions (D B : Type 0) : Type 0 where
  pub focus_window_name : String → B → B
  pub focus_window_position_x : D → B → B
  pub focus_window_position_y : D → B → B
  pub focus_window_width : D → B → B
  pub focus_window_height : D → B → B

-- BuilderHasScreenFunction
pub record BuilderHasScreenFunction (B : Type 0) : Type 0 where
  pub screen : ℤ → B → B
