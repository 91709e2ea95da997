-- ===== src/LibInput/EntryTypes.antt =====
-- Which entries the events of evgetlibinput/src/event_transformer.cpp have.
use evget.Prelude.{◌≡◌, refl, List, [], ◌∷◌, map, Option, none, some}
use evget.Event.Enums.{EntryType, key, mouse_click, mouse_move, mouse_scroll}
use evget.Event.Data.{Data, add_entry}
use evget.Event.Data
use evget.Event.Key
use evget.Event.MouseClick
use evget.Event.MouseMove
use evget.Event.MouseScroll
use evget.LibInput.Api.{
  LibInputApi, Environment, EventType, ProximityState, proximity_in, proximity_out,
}
use evget.LibInput.State.{State, EventContext}
use evget.LibInput.Values.{InputEvent}
use evget.LibInput.Handlers
use evget.LibInput.Handlers.{build_tablet_tool_move}
use evget.LibInput.Transformer
use evget.LibInput.Transformer.{
  transform_event, transform_from, switch_on_type, build_touch_release, build_scroll_event,
}

abbrev pub move_when_near : ProximityState → List EntryType
move_when_near proximity_in = mouse_move ∷ []
move_when_near proximity_out = []

module _ {D : Type 0} (api : LibInputApi D) where
  -- The table of entries: motions are moves, buttons are clicks, keys are keys, and a tip or a touch
  -- that goes down or ends is a move and a click.
  abbrev pub expected_types : EventType → api.Event → List EntryType
  expected_types EventType.pointer_motion event = mouse_move ∷ []
  expected_types EventType.pointer_motion_absolute event = mouse_move ∷ []
  expected_types EventType.pointer_button event = mouse_click ∷ []
  expected_types EventType.tablet_tool_proximity event =
      move_when_near (api.get_tablet_tool_proximity_state (api.get_tablet_tool_event event))
  expected_types EventType.tablet_tool_axis event = mouse_move ∷ []
  expected_types EventType.tablet_tool_tip event = mouse_move ∷ mouse_click ∷ []
  expected_types EventType.tablet_tool_button event = mouse_click ∷ []
  expected_types EventType.tablet_pad_button event = mouse_click ∷ []
  expected_types EventType.tablet_pad_key event = key ∷ []
  expected_types EventType.touch_down event = mouse_move ∷ mouse_click ∷ []
  expected_types EventType.touch_motion event = mouse_move ∷ []
  expected_types EventType.touch_cancel event = mouse_move ∷ mouse_click ∷ []
  expected_types EventType.touch_up event = mouse_move ∷ mouse_click ∷ []
  expected_types EventType.pointer_scroll_wheel event = mouse_scroll ∷ []
  expected_types EventType.pointer_scroll_finger event = mouse_scroll ∷ []
  expected_types EventType.pointer_scroll_continuous event = mouse_scroll ∷ []
  expected_types EventType.keyboard_key event = key ∷ []
  expected_types _ event = []

  -- Only an event with data and with a device has entries.
  abbrev pub types_of : Option api.Event → List EntryType
  types_of none = []
  types_of (some event) = elim (api.get_device event) [
    | none ↦ []
    | some device ↦ expected_types (api.get_event_type event) event
  ]

abbrev pub entry_types : Data → List EntryType
entry_types d = map (λ e. e.entry_type) d.entries

module _ {D T X R : Type 0} (env : Environment D T X R) where
  open env use {api}

  proximity-types :
      (ctx : EventContext T) (event : api.Event) (s : State D api.Device X R)
      → entry_types (Handlers.tablet_tool_proximity env ctx event s Data.empty).0
        ≡ expected_types api EventType.tablet_tool_proximity event
  unfolding Handlers.tablet_tool_proximity build_tablet_tool_move MouseMove.build add_entry
  proximity-types ctx event s = go (api.get_tablet_tool_proximity_state tool)
    where
      tool : api.Tool
      tool = api.get_tablet_tool_event event

      go :
          (p : ProximityState)
          → entry_types
              (elim p as (λ x. Data × State D api.Device X R) [
                | proximity_in ↦
                    build_tablet_tool_move env ctx (api.get_tablet_tool_time tool) tool s Data.empty
                | proximity_out ↦ (Data.empty, s)
              ]).0
            ≡ move_when_near p
      go proximity_in = refl
      go proximity_out = refl

  switch_on_type-types :
      (t : EventType) (ctx : EventContext T) (event : api.Event) (s : State D api.Device X R)
      → entry_types (switch_on_type env t ctx event s Data.empty).0 ≡ expected_types api t event
  unfolding switch_on_type build_tablet_tool_move Handlers.pointer_motion
      Handlers.pointer_motion_absolute Handlers.pointer_button Handlers.tablet_tool_axis
      Handlers.tablet_tool_tip Handlers.tablet_tool_button Handlers.tablet_pad_button
      Handlers.tablet_pad_key Transformer.touch_down Transformer.touch_motion build_touch_release
      build_scroll_event Transformer.keyboard_key Key.build MouseClick.build MouseMove.build
      MouseScroll.build add_entry
  switch_on_type-types EventType.tablet_tool_proximity ctx event s = proximity-types _ event s
  switch_on_type-types _ ctx event s = refl

  -- The entries of an event are those of the table, in its order; an event without data or without a
  -- device, an event of a tablet ring or strip, and an event of another type has none.
  pub transform_event-types :
      (event : InputEvent T api.Event) (s : State D api.Device X R)
      → entry_types (transform_event env event s).0 ≡ types_of api event.view_data
  unfolding transform_event transform_from
  transform_event-types event s = go event.view_data
    where
      with_device :
          (inner : api.Event) (o : Option api.Device)
          → entry_types
              (elim o as (λ x. Data × State D api.Device X R) [
                | none ↦ (Data.empty, s)
                | some device ↦ transform_from env event.timestamp inner device s
              ]).0
            ≡ elim o [
              | none ↦ []
              | some device ↦ expected_types api (api.get_event_type inner) inner
            ]
      with_device inner none = refl
      with_device inner (some device) = switch_on_type-types (api.get_event_type inner) _ inner _

      go :
          (v : Option api.Event)
          → entry_types (transform_event env (record event { view_data = v }) s).0 ≡ types_of api v
      go none = refl
      go (some inner) = with_device inner (api.get_device inner)
