-- ===== src/Manager/Model/Id.antt =====
-- crates/sandbox-manager/src/model.rs: which texts are the ids of sandboxes.
use ephemeral_sandbox.Prelude.{
  ℕ, ◌≤◌, ◌≡◌, ◌≢◌, refl, ◌↔◌, ◌⊎◌, true, false, [], ◌∷◌, arith, All, Text,
}
use ephemeral_sandbox.Layers.Changes.Path.{is_whitespace}
use ephemeral_sandbox.Manager.Model.{done, id_char, id_chars, is_blank, id_new}

-- A letter, a digit, a dash, an underscore or a full stop, in ASCII.
abbrev pub IsIdChar : ℕ → Type 0
IsIdChar c =
    ((b'a' ≤ c) × (c ≤ b'z'))
    ⊎ ((b'A' ≤ c) × (c ≤ b'Z'))
    ⊎ ((b'0' ≤ c) × (c ≤ b'9'))
    ⊎ (c ≡ b'-')
    ⊎ (c ≡ b'_')
    ⊎ (c ≡ b'.')

id_char_iff : (c : ℕ) → (id_char c ≡ true) ↔ IsIdChar c
unfolding id_char
id_char_iff c = ground arith

id_chars_iff : (cs : Text) → (id_chars cs ≡ true) ↔ All IsIdChar cs
unfolding id_chars
id_chars_iff [] = (λ _. tt, λ _. refl)
id_chars_iff (c ∷ cs) = ground (arith, id_char_iff c, id_chars_iff cs)

id_char_not_blank : (c : ℕ) → id_char c ≡ true → is_whitespace c ≡ false
unfolding id_char is_whitespace
id_char_not_blank c h = ground arith

-- A text is accepted as the id of a sandbox, unchanged, exactly if it is not empty and holds only
-- ASCII letters, digits, dashes, underscores and full stops.
pub id_new_iff :
    (value id : Text)
    → (id_new value ≡ done id) ↔ ((value ≢ []) × All IsIdChar value × (value ≡ id))
unfolding id_new is_blank id_chars
id_new_iff [] id = (λ h. cc, λ h. absurd (h.0 refl))
id_new_iff (c ∷ cs) id =
    ground (arith, id_char_iff c, id_chars_iff cs, id_chars_iff (c ∷ cs), id_char_not_blank c)
