-- ===== src/LibInput/Setters.antt =====
-- The optional setters of evgetlibinput/src/event_transformer.cpp leave the base fields of a builder.
use evget.Prelude.{ℕ, String, List, Option, none, some, Bool, true, false, if◌then◌else◌}
use evget.Event.Key
use evget.Event.Key.{Key, key_base_fields, key_button_name}
use evget.Event.MouseClick
use evget.Event.MouseClick.{MouseClick, mouse_click_base_fields, mouse_click_button_name}
use evget.Event.MouseMove
use evget.Event.MouseMove.{MouseMove, mouse_move_base_fields}
use evget.Event.MouseScroll.{MouseScroll, mouse_scroll_base_fields}
use evget.LibInput.Api.{Environment}
use evget.LibInput.State.{EventContext, set_button_name, set_difference}
use evget.LibInput.Transformer.{name_key, set_character}
use evget.LibInput.Provenance.{KeyBased, MouseClickBased, MouseMoveBased, MouseScrollBased}

module _ {D T X R : Type 0} (env : Environment D T X R) where
  open env use {api, xkb, formats}

  -- The setters that may leave a builder as it is.
  pub key-named :
      (ctx : EventContext T) (ms : List String) (code : ℕ) (b : Key D T)
      → KeyBased ctx ms b
      → KeyBased ctx ms (set_button_name env code b)
  unfolding set_button_name Key.with_button_name
  key-named ctx ms code b h = go (env.event_code_name code)
    where
      go :
          (o : Option String)
          → KeyBased ctx ms (elim o [ none ↦ b | some name ↦ Key.with_button_name name b ])
      go none = h
      go (some name) = h

  pub mouse_click-named :
      (ctx : EventContext T) (ms : List String) (code : ℕ) (b : MouseClick D T)
      → MouseClickBased ctx ms b
      → MouseClickBased ctx ms (set_button_name env code b)
  unfolding set_button_name MouseClick.with_button_name
  mouse_click-named ctx ms code b h = go (env.event_code_name code)
    where
      go :
          (o : Option String)
          → MouseClickBased ctx ms
              (elim o [ none ↦ b | some name ↦ MouseClick.with_button_name name b ])
      go none = h
      go (some name) = h

  pub difference-Based :
      (ctx : EventContext T) (ms : List String) (px py : Option D) (x y : D) (b : MouseMove D T)
      → MouseMoveBased ctx ms b
      → MouseMoveBased ctx ms (set_difference env px py x y b)
  unfolding MouseMove.with_position_x MouseMove.with_position_y
  difference-Based ctx ms (some px) (some py) x y b h = h
  difference-Based ctx ms (some px) none x y b h = h
  difference-Based ctx ms none py x y b h = h

  pub name_key-Based :
      (ctx : EventContext T) (ms : List String) (o : Option String) (b : Key D T)
      → KeyBased ctx ms b
      → KeyBased ctx ms (name_key env o b)
  unfolding Key.with_button_name
  name_key-Based ctx ms none b h = h
  name_key-Based ctx ms (some name) b h = h

  pub set_character-Based :
      (ctx : EventContext T) (ms : List String) (o : Option String) (b : Key D T)
      → KeyBased ctx ms b
      → KeyBased ctx ms (set_character env o b)
  unfolding Key.with_character
  set_character-Based ctx ms none b h = h
  set_character-Based ctx ms (some name) b h = h

  pub if-Based :
      (ctx : EventContext T) (ms : List String) (t : Bool) (b c : MouseScroll D T)
      → MouseScrollBased ctx ms b
      → MouseScrollBased ctx ms c
      → MouseScrollBased ctx ms (if t then b else c)
  if-Based ctx ms true b c h k = h
  if-Based ctx ms false b c h k = k
