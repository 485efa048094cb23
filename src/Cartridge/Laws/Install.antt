-- ===== src/Cartridge/Laws/Install.antt =====
-- Inserting a cartridge and changing its mapper, in src/cartridge.c.
use model_lib.Base.{
  ℕ, ◌<◌, ◌≤◌, ◌≡◌, ◌⊎◌, inl, inr, refl, ap, arith, Bool, true, false, not, ◌||◌, List, Option,
  none, some,
}
use model_lib.Base.{ltb, ◌==◌, if◌then◌else◌, length, ℤ, pos, negsuc}
use model_lib.Scc.Chip.{scc_mode_compatible, scc_set_mode}
use model_lib.Cartridge.Mapper.{
  MsxCartridgeMapper, mapper_auto, mapper_linear, mapper_ascii8, mapper_ascii16, mapper_konami,
  mapper_konami_scc, mapper_of, mapper_max_size,
}
use model_lib.Cartridge.Slot.{
  MsxCartridge, first_banks, msx_cartridge_reset, resolve, base_of, install_as,
  msx_cartridge_install, remap, msx_cartridge_set_mapper,
}

-- The result of a call on `s`: done, or failed with nothing changed.
abbrev pub DoneOrUnchanged : MsxCartridge → ℤ × MsxCartridge → Type 0
DoneOrUnchanged s q = (q.0 ≡ pos 0) ⊎ ((q.0 ≡ negsuc 0) × (q.1 ≡ s))

done_or :
    (b : Bool) (p q : ℤ × MsxCartridge) (s : MsxCartridge)
    → DoneOrUnchanged s p
    → DoneOrUnchanged s q
    → DoneOrUnchanged s (if b then p else q)
done_or true p q s h k = h
done_or false p q s h k = k

mapper_or :
    (o : Option MsxCartridgeMapper) (f : MsxCartridgeMapper → ℤ × MsxCartridge) (s : MsxCartridge)
    → ((m : MsxCartridgeMapper) → DoneOrUnchanged s (f m))
    → DoneOrUnchanged s (elim o as (λ _. ℤ × MsxCartridge) [ none ↦ (negsuc 0, s) | some m ↦ f m ])
mapper_or none f s h = inr (refl, refl)
mapper_or (some m) f s h = h m

-- An insertion and a change of mapper either report 0, or report -1 and leave the cartridge as it
-- was: too much data, no data, an unknown mapper, no memory, no cartridge.
pub errors_change_nothing :
    (allocated : Bool) (bytes : List ℕ) (code : ℕ) (s : MsxCartridge)
    → DoneOrUnchanged s (msx_cartridge_install allocated bytes code s)
      × DoneOrUnchanged s (msx_cartridge_set_mapper code s)
unfolding msx_cartridge_install msx_cartridge_set_mapper install_as remap
errors_change_nothing allocated bytes code s =
    let failed : DoneOrUnchanged s (negsuc 0, s) = inr (refl, refl) in
    (
      done_or _ (negsuc 0, s) _ s failed
          (mapper_or (mapper_of code) (λ m. install_as allocated bytes m s) s
            (λ m.
              done_or (ltb (mapper_max_size (resolve m bytes)) (length bytes) || not allocated)
                (negsuc 0, s) _ s failed (inl refl))),
      done_or s.loaded _ (negsuc 0, s) s
          (mapper_or (mapper_of code) (λ m. remap m s) s
            (λ m.
              done_or (ltb (mapper_max_size (resolve m s.data_bytes)) (length s.data_bytes))
                (negsuc 0, s) _ s failed (inl refl)))
          failed,
    )

mapper_max_size_le : (m : MsxCartridgeMapper) → mapper_max_size m ≤ 0x400000
unfolding mapper_max_size
mapper_max_size_le mapper_auto = omega arith
mapper_max_size_le mapper_linear = omega arith
mapper_max_size_le mapper_ascii8 = omega arith
mapper_max_size_le mapper_ascii16 = omega arith
mapper_max_size_le mapper_konami = omega arith
mapper_max_size_le mapper_konami_scc = omega arith

-- A cartridge that has just been inserted.
pub record Inserted (bytes : List ℕ) (m : MsxCartridgeMapper) (q : ℤ × MsxCartridge) : Type 0 where
  pub result : q.0 ≡ pos 0
  pub contents : q.1.data_bytes ≡ bytes
  pub present : q.1.loaded ≡ true
  pub requested : q.1.requested_mapper ≡ m
  pub resolved : q.1.mapper ≡ resolve m bytes
  pub address : q.1.base ≡ base_of (resolve m bytes) bytes
  pub selected : q.1.banks ≡ first_banks (resolve m bytes)
  pub chip_hidden : q.1.scc_enabled ≡ false
  pub chip_mode : q.1.scc.mode ≡ scc_mode_compatible

-- Data that is not empty and that the mapper can hold is inserted when there is memory: the
-- largest size of all mappers is no further limit.
pub msx_cartridge_install_lem :
    (bytes : List ℕ) (code : ℕ) (m : MsxCartridgeMapper) (s : MsxCartridge)
    → mapper_of code ≡ some m
    → 0 < length bytes
    → length bytes ≤ mapper_max_size (resolve m bytes)
    → Inserted bytes m (msx_cartridge_install true bytes code s)
unfolding msx_cartridge_install install_as msx_cartridge_reset scc_set_mode
msx_cartridge_install_lem bytes code m s hm hp hl =
    let r = resolve m bytes in
    let allowed : (length bytes == 0) || ltb 0x400000 (length bytes) ≡ false =
      ground (arith, mapper_max_size_le r) in
    let fits : ltb (mapper_max_size r) (length bytes) || false ≡ false = ground arith in
    let path : msx_cartridge_install true bytes code s ≡ install_as true bytes m s = rw allowed (
      ap
        (λ o. elim o as (λ _. ℤ × MsxCartridge) [
          | none ↦ (negsuc 0, s)
          | some k ↦ install_as true bytes k s
        ])
        hm) in
    rw path (
      rw fits (record {
        result = refl;
        contents = refl;
        present = refl;
        requested = refl;
        resolved = refl;
        address = refl;
        selected = refl;
        chip_hidden = refl;
        chip_mode = refl;
      }))
