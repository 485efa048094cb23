-- ===== src/Cartridge/Detect.antt =====
-- What the data of a cartridge says about its mapper and its address: linear_base and
-- msx_cartridge_detect_mapper of src/cartridge.c. The pair `data`, `size` is one list.
use model_lib.Base.{ℕ, ◌+◌, ◌-◌, bit_or, Bool, not, ◌&&◌, List, [], ◌∷◌}
use model_lib.Base.{ltb, leb, ◌==◌, if◌then◌else◌, switch, u16, u32, ◌<<<◌, length, get_or}
use model_lib.Cartridge.Mapper.{
  MsxCartridgeMapper, mapper_linear, mapper_ascii8, mapper_ascii16, mapper_konami,
  mapper_konami_scc,
}

abbrev word_at : List ℕ → ℕ → ℕ
word_at bytes i = bit_or (get_or bytes i 0) (u16 (get_or bytes (i + 1) 0) <<< 8)

abbrev starts_ab : List ℕ → Bool
starts_ab bytes = (get_or bytes 0 0 == 0x41) && (get_or bytes 1 0 == 0x42)

unfoldable pub linear_base : List ℕ → ℕ
linear_base bytes =
    let size = length bytes in
    let init = word_at bytes 2 in
    if ltb 0x8000 size
    then 0x0000
    else if ltb 0x4000 size
    then 0x4000
    else if leb 4 size && starts_ab bytes && leb 0x8000 init && ltb init 0xc000
    then 0x8000
    else 0x4000

-- `scores[MSX_CART_MAPPER_COUNT]`; the two first are never counted.
pub record Scores : Type 0 where
  pub ascii8 : ℕ
  pub ascii16 : ℕ
  pub konami : ℕ
  pub konami_scc : ℕ

abbrev pub no_scores : Scores
no_scores = record { ascii8 = 0; ascii16 = 0; konami = 0; konami_scc = 0 }

-- The `switch (address)` on the target of one LD (nn),A.
unfoldable pub count_target : ℕ → Scores → Scores
count_target address s =
    switch address
      ((0x5000 ∷ 0x9000 ∷ 0xb000 ∷ [], record s { konami_scc = u32 (s.konami_scc + 1) })
        ∷ (0x4000 ∷ 0x8000 ∷ 0xa000 ∷ [], record s { konami = u32 (s.konami + 1) })
        ∷ (0x6800 ∷ 0x7800 ∷ [], record s { ascii8 = u32 (s.ascii8 + 1) })
        ∷ (
          0x6000 ∷ [],
          record s {
            konami = u32 (s.konami + 1);
            ascii8 = u32 (s.ascii8 + 1);
            ascii16 = u32 (s.ascii16 + 1);
          },
        )
        ∷ (
          0x7000 ∷ [],
          record s {
            konami_scc = u32 (s.konami_scc + 1);
            ascii8 = u32 (s.ascii8 + 1);
            ascii16 = u32 (s.ascii16 + 1);
          },
        )
        ∷ (0x77ff ∷ [], record s { ascii16 = u32 (s.ascii16 + 1) })
        ∷ [])
      s

-- `for (i = 0; i + 2 < size; ++i)`.
unfoldable pub scan : List ℕ → Scores → Scores
scan [] s = s
scan (a ∷ []) s = s
scan (a ∷ b ∷ []) s = s
scan (a ∷ b ∷ c ∷ rest) s =
    scan (b ∷ c ∷ rest) (if a == 0x32 then count_target (bit_or b (u16 c <<< 8)) s else s)

-- One round of the search for the best score: a later mapper wins a tie.
abbrev better : MsxCartridgeMapper × ℕ → MsxCartridgeMapper → ℕ → MsxCartridgeMapper × ℕ
better best mapper score = if leb best.1 score then (mapper, score) else best

unfoldable pub best_mapper : Scores → MsxCartridgeMapper
best_mapper s =
    let first = better (mapper_ascii8, 0) mapper_ascii8 (s.ascii8 - 1) in
    let second = better first mapper_ascii16 s.ascii16 in
    let third = better second mapper_konami s.konami in
    let best = better third mapper_konami_scc s.konami_scc in
    if best.1 == 0 then mapper_ascii8 else best.0

unfoldable pub msx_cartridge_detect_mapper : List ℕ → MsxCartridgeMapper
msx_cartridge_detect_mapper bytes =
    let size = length bytes in
    if ltb size 0x10000
    then mapper_linear
    else if (size == 0x10000) && not (starts_ab bytes)
    then mapper_linear
    else best_mapper (scan bytes no_scores)
