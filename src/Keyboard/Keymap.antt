-- ===== src/Keyboard/Keymap.antt =====
-- Where each character is on the keyboard.
use model_lib.Base.{ℕ, Bool, true, false, List, [], ◌∷◌, ◌++◌, switch}

pub record PasteKey : Type 0 where
  pub row : ℕ
  pub column : ℕ
  pub shift : Bool
  pub valid : Bool

abbrev pub key : ℕ → ℕ → Bool → PasteKey
key r c s = record { row = r; column = c; shift = s; valid = true }

abbrev pub no_key : PasteKey
no_key = record { row = 0; column = 0; shift = false; valid = false }

-- The control characters that a text may hold, the space and the digits.
abbrev pub control_and_digit_keys : List (List ℕ × PasteKey)
control_and_digit_keys =
    (0x08 ∷ [], key 7 5 false)
    ∷ (0x09 ∷ [], key 7 3 false)
    ∷ (0x0a ∷ [], key 7 7 false)
    ∷ (0x20 ∷ [], key 8 0 false)
    ∷ (0x30 ∷ [], key 0 0 false)
    ∷ (0x31 ∷ [], key 0 1 false)
    ∷ (0x32 ∷ [], key 0 2 false)
    ∷ (0x33 ∷ [], key 0 3 false)
    ∷ (0x34 ∷ [], key 0 4 false)
    ∷ (0x35 ∷ [], key 0 5 false)
    ∷ (0x36 ∷ [], key 0 6 false)
    ∷ (0x37 ∷ [], key 0 7 false)
    ∷ (0x38 ∷ [], key 1 0 false)
    ∷ (0x39 ∷ [], key 1 1 false)
    ∷ []

-- Small and capital letters.
abbrev pub letter_keys : List (List ℕ × PasteKey)
letter_keys =
    (0x61 ∷ [], key 2 6 false)
    ∷ (0x62 ∷ [], key 2 7 false)
    ∷ (0x63 ∷ [], key 3 0 false)
    ∷ (0x64 ∷ [], key 3 1 false)
    ∷ (0x65 ∷ [], key 3 2 false)
    ∷ (0x66 ∷ [], key 3 3 false)
    ∷ (0x67 ∷ [], key 3 4 false)
    ∷ (0x68 ∷ [], key 3 5 false)
    ∷ (0x69 ∷ [], key 3 6 false)
    ∷ (0x6a ∷ [], key 3 7 false)
    ∷ (0x6b ∷ [], key 4 0 false)
    ∷ (0x6c ∷ [], key 4 1 false)
    ∷ (0x6d ∷ [], key 4 2 false)
    ∷ (0x6e ∷ [], key 4 3 false)
    ∷ (0x6f ∷ [], key 4 4 false)
    ∷ (0x70 ∷ [], key 4 5 false)
    ∷ (0x71 ∷ [], key 4 6 false)
    ∷ (0x72 ∷ [], key 4 7 false)
    ∷ (0x73 ∷ [], key 5 0 false)
    ∷ (0x74 ∷ [], key 5 1 false)
    ∷ (0x75 ∷ [], key 5 2 false)
    ∷ (0x76 ∷ [], key 5 3 false)
    ∷ (0x77 ∷ [], key 5 4 false)
    ∷ (0x78 ∷ [], key 5 5 false)
    ∷ (0x79 ∷ [], key 5 6 false)
    ∷ (0x7a ∷ [], key 5 7 false)
    ∷ (0x41 ∷ [], key 2 6 true)
    ∷ (0x42 ∷ [], key 2 7 true)
    ∷ (0x43 ∷ [], key 3 0 true)
    ∷ (0x44 ∷ [], key 3 1 true)
    ∷ (0x45 ∷ [], key 3 2 true)
    ∷ (0x46 ∷ [], key 3 3 true)
    ∷ (0x47 ∷ [], key 3 4 true)
    ∷ (0x48 ∷ [], key 3 5 true)
    ∷ (0x49 ∷ [], key 3 6 true)
    ∷ (0x4a ∷ [], key 3 7 true)
    ∷ (0x4b ∷ [], key 4 0 true)
    ∷ (0x4c ∷ [], key 4 1 true)
    ∷ (0x4d ∷ [], key 4 2 true)
    ∷ (0x4e ∷ [], key 4 3 true)
    ∷ (0x4f ∷ [], key 4 4 true)
    ∷ (0x50 ∷ [], key 4 5 true)
    ∷ (0x51 ∷ [], key 4 6 true)
    ∷ (0x52 ∷ [], key 4 7 true)
    ∷ (0x53 ∷ [], key 5 0 true)
    ∷ (0x54 ∷ [], key 5 1 true)
    ∷ (0x55 ∷ [], key 5 2 true)
    ∷ (0x56 ∷ [], key 5 3 true)
    ∷ (0x57 ∷ [], key 5 4 true)
    ∷ (0x58 ∷ [], key 5 5 true)
    ∷ (0x59 ∷ [], key 5 6 true)
    ∷ (0x5a ∷ [], key 5 7 true)
    ∷ []

-- Signs, without and with the shift key.
abbrev pub punctuation_keys : List (List ℕ × PasteKey)
punctuation_keys =
    (0x2d ∷ [], key 1 2 false)
    ∷ (0x3d ∷ [], key 1 3 false)
    ∷ (0x5c ∷ [], key 1 4 false)
    ∷ (0x5b ∷ [], key 1 5 false)
    ∷ (0x5d ∷ [], key 1 6 false)
    ∷ (0x3b ∷ [], key 1 7 false)
    ∷ (0x27 ∷ [], key 2 0 false)
    ∷ (0x60 ∷ [], key 2 1 false)
    ∷ (0x2c ∷ [], key 2 2 false)
    ∷ (0x2e ∷ [], key 2 3 false)
    ∷ (0x2f ∷ [], key 2 4 false)
    ∷ (0x29 ∷ [], key 0 0 true)
    ∷ (0x21 ∷ [], key 0 1 true)
    ∷ (0x40 ∷ [], key 0 2 true)
    ∷ (0x23 ∷ [], key 0 3 true)
    ∷ (0x24 ∷ [], key 0 4 true)
    ∷ (0x25 ∷ [], key 0 5 true)
    ∷ (0x5e ∷ [], key 0 6 true)
    ∷ (0x26 ∷ [], key 0 7 true)
    ∷ (0x2a ∷ [], key 1 0 true)
    ∷ (0x28 ∷ [], key 1 1 true)
    ∷ (0x5f ∷ [], key 1 2 true)
    ∷ (0x2b ∷ [], key 1 3 true)
    ∷ (0x7c ∷ [], key 1 4 true)
    ∷ (0x7b ∷ [], key 1 5 true)
    ∷ (0x7d ∷ [], key 1 6 true)
    ∷ (0x3a ∷ [], key 1 7 true)
    ∷ (0x22 ∷ [], key 2 0 true)
    ∷ (0x7e ∷ [], key 2 1 true)
    ∷ (0x3c ∷ [], key 2 2 true)
    ∷ (0x3e ∷ [], key 2 3 true)
    ∷ (0x3f ∷ [], key 2 4 true)
    ∷ []

-- The table has 128 entries, of which those not named are invalid; no other byte is looked up.
unfoldable pub keymap : ℕ → PasteKey
keymap c = switch c (control_and_digit_keys ++ letter_keys ++ punctuation_keys) no_key
