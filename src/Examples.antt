-- ===== src/Examples.antt =====
-- Runs of the small parts: intervals, and the display form of an entry.
use evget.Prelude.{◌≡◌, some, [], ◌∷◌, arith}
use evget.Prelude.{none, map, returns, refl}
use evget.Event.Enums.{
  mouse, alt, mouse_click, to_underlying, to_underlying_optional, device_type_enum,
  button_action_enum, modifier_value_enum,
}
use evget.Event.Names.{from_device, from_button_action, from_modifier_value}
use evget.Event.Entry.{Entry, to_named_representation}
use evget.Event.Display.{to_named_representation-named}
use evget.IntervalTracker.Telescoping.{intervals, sum_of, intervals-sum}

intervals-sum_example :
    sum_of (intervals (12 ∷ 12 ∷ 20 ∷ []) (record { previous = some 10 })) ≡ some 10
intervals-sum_example =
    intervals-sum 10 (12 ∷ 12 ∷ 20 ∷ []) (omega arith, (omega arith, (omega arith, omega arith)))

abbrev click : Entry
click = record {
  entry_type = mouse_click;
  values =
      ""
      ∷ ""
      ∷ ""
      ∷ ""
      ∷ ""
      ∷ ""
      ∷ ""
      ∷ ""
      ∷ ""
      ∷ ""
      ∷ ""
      ∷ ""
      ∷ ""
      ∷ ""
      ∷ to_underlying mouse
      ∷ ""
      ∷ "272"
      ∷ "BTN_LEFT"
      ∷ ""
      ∷ [];
  modifiers = map to_underlying (alt ∷ []);
}

to_named_representation-named_example :
    to_named_representation click
    ≡ returns (record click {
      values =
          "" ∷ "" ∷ "" ∷ "" ∷ "" ∷ "" ∷ "" ∷ "" ∷ "" ∷ "" ∷ "" ∷ "" ∷ "" ∷ "" ∷ "Mouse" ∷ "" ∷ "272"
          ∷ "BTN_LEFT" ∷ "" ∷ [];
      modifiers = "Alt" ∷ [];
    })
unfolding from_device from_button_action from_modifier_value to_underlying_optional to_underlying
    device_type_enum button_action_enum modifier_value_enum
to_named_representation-named_example =
    to_named_representation-named click (some mouse) none (alt ∷ [])
      (refl, refl, (refl, refl), (refl, tt), refl)
