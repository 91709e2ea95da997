-- ===== src/Event/Modifiers.antt =====
-- The builders of evget/src/event only ever append to their modifiers.
use evget.Prelude.{
  ◌≡◌, refl, ap, sym, ◌∙◌, inl, inr, String, Bool, Bool-cases, if◌then◌else◌, List, [], ◌∷◌, ◌++◌,
  map, select, append_assoc, append-nil,
}
use evget.Event.Enums.{
  ModifierValue, to_underlying, device_type_enum, button_action_enum, modifier_value_enum,
}
use evget.Event.Builder.{BuilderHasBaseFields}
use evget.Event.Key.{Key, key_base_fields}
use evget.Event.Key
use evget.Event.MouseClick.{MouseClick, mouse_click_base_fields}
use evget.Event.MouseClick
use evget.Event.MouseMove.{MouseMove, mouse_move_base_fields}
use evget.Event.MouseMove
use evget.Event.MouseScroll.{MouseScroll, mouse_scroll_base_fields}
use evget.Event.MouseScroll

-- A builder to which texts of modifiers are appended.
pub record AppendsModifiers {T B : Type 0} (b : BuilderHasBaseFields T B) : Type 0 where
  pub append : List String → B → B
  pub append-nil : (x : B) → append [] x ≡ x
  pub append-append : (xs ys : List String) (x : B) → append ys (append xs x) ≡ append (xs ++ ys) x
  pub modifier-append :
      (v : ModifierValue) (x : B) → b.modifier v x ≡ append (to_underlying v ∷ []) x

unfoldable pub key_appends : {D T : Type 0} → AppendsModifiers (key_base_fields {D = D} {T = T})
unfolding Key.with_modifier to_underlying
key_appends = record {
  append = λ ms b. record b { modifiers = b.modifiers ++ ms };
  append-nil = λ b. ap (λ ms. record b { modifiers = ms }) (append-nil b.modifiers);
  append-append =
      λ xs ys b. ap (λ ms. record b { modifiers = ms }) (append_assoc b.modifiers xs ys);
  modifier-append = λ v b. refl;
}

unfoldable pub mouse_click_appends :
    {D T : Type 0} → AppendsModifiers (mouse_click_base_fields {D = D} {T = T})
unfolding MouseClick.with_modifier to_underlying
mouse_click_appends = record {
  append = λ ms b. record b { modifiers = b.modifiers ++ ms };
  append-nil = λ b. ap (λ ms. record b { modifiers = ms }) (append-nil b.modifiers);
  append-append =
      λ xs ys b. ap (λ ms. record b { modifiers = ms }) (append_assoc b.modifiers xs ys);
  modifier-append = λ v b. refl;
}

unfoldable pub mouse_move_appends :
    {D T : Type 0} → AppendsModifiers (mouse_move_base_fields {D = D} {T = T})
unfolding MouseMove.with_modifier to_underlying
mouse_move_appends = record {
  append = λ ms b. record b { modifiers = b.modifiers ++ ms };
  append-nil = λ b. ap (λ ms. record b { modifiers = ms }) (append-nil b.modifiers);
  append-append =
      λ xs ys b. ap (λ ms. record b { modifiers = ms }) (append_assoc b.modifiers xs ys);
  modifier-append = λ v b. refl;
}

unfoldable pub mouse_scroll_appends :
    {D T : Type 0} → AppendsModifiers (mouse_scroll_base_fields {D = D} {T = T})
unfolding MouseScroll.with_modifier to_underlying
mouse_scroll_appends = record {
  append = λ ms b. record b { modifiers = b.modifiers ++ ms };
  append-nil = λ b. ap (λ ms. record b { modifiers = ms }) (append-nil b.modifiers);
  append-append =
      λ xs ys b. ap (λ ms. record b { modifiers = ms }) (append_assoc b.modifiers xs ys);
  modifier-append = λ v b. refl;
}

-- A backend tests one source of modifiers after the other, and sets those that pass.
module _ {K : Type 0} (test : K → Bool) where
  abbrev pub tested : List (K × ModifierValue) → List String
  tested table = map (λ p. to_underlying p.1) (select (λ p. test p.0) table)

  module _ {T B : Type 0} (b : BuilderHasBaseFields T B) (law : AppendsModifiers b) where
    unfoldable pub set_tested : List (K × ModifierValue) → B → B
    set_tested [] builder = builder
    set_tested (p ∷ ps) builder =
        set_tested ps (if test p.0 then b.modifier p.1 builder else builder)

    pub set_tested-append :
        (table : List (K × ModifierValue)) (builder : B)
        → set_tested table builder ≡ law.append (tested table) builder
    unfolding set_tested
    set_tested-append [] builder = sym (law.append-nil builder)
    set_tested-append (p ∷ ps) builder = elim (Bool-cases (test p.0)) [
      | inl y ↦ rw y (
          set_tested-append ps (b.modifier p.1 builder)
          ∙ ap (law.append (tested ps)) (law.modifier-append p.1 builder)
          ∙ law.append-append (to_underlying p.1 ∷ []) (tested ps) builder)
      | inr n ↦ rw n (set_tested-append ps builder)
    ]
