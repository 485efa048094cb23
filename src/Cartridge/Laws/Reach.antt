-- ===== src/Cartridge/Laws/Reach.antt =====
-- The life of a cartridge of src/cartridge.c as a sequence of calls.
use model_lib.Base.{ℕ, ◌<◌, Bool, List, ℤ}
use model_lib.Cartridge.Slot.{
  MsxCartridge, msx_cartridge_init, msx_cartridge_eject, msx_cartridge_destroy, msx_cartridge_reset,
  msx_cartridge_install, msx_cartridge_set_mapper,
}
use model_lib.Cartridge.Access.{msx_cartridge_read, msx_cartridge_write, msx_cartridge_render_audio}
use model_lib.Cartridge.Laws.Valid.{
  IsValid, msx_cartridge_init-IsValid, reset_repairs, msx_cartridge_install-IsValid,
  msx_cartridge_set_mapper-IsValid, msx_cartridge_read-IsValid, msx_cartridge_write-IsValid,
  msx_cartridge_render_audio-IsValid,
}

-- A state is reached from another by one call; a value written is a byte.
pub data Step : MsxCartridge → MsxCartridge → Type 0 where
  installs :
      (allocated : Bool) (bytes : List ℕ) (code : ℕ) (s : MsxCartridge)
      → Step s (msx_cartridge_install allocated bytes code s).1
  sets_mapper : (code : ℕ) (s : MsxCartridge) → Step s (msx_cartridge_set_mapper code s).1
  resets : (s : MsxCartridge) → Step s (msx_cartridge_reset s)
  ejects : (s : MsxCartridge) → Step s (msx_cartridge_eject s)
  reads : (address : ℕ) (s : MsxCartridge) → Step s (msx_cartridge_read address s).1
  writes :
      (address value : ℕ) (s : MsxCartridge)
      → value < 256
      → Step s (msx_cartridge_write address value s)
  renders :
      (sample : ℤ) (clock_hz rate : ℕ) (s : MsxCartridge)
      → Step s (msx_cartridge_render_audio sample clock_hz rate s).1

pub data ReachableCartridge : MsxCartridge → Type 0 where
  starts : ReachableCartridge msx_cartridge_init
  follows : {s t : MsxCartridge} → ReachableCartridge s → Step s t → ReachableCartridge t

step-IsValid : {s t : MsxCartridge} → Step s t → IsValid s → IsValid t
unfolding msx_cartridge_eject msx_cartridge_destroy
step-IsValid (installs allocated bytes code s) v =
    msx_cartridge_install-IsValid allocated bytes code s v
step-IsValid (sets_mapper code s) v = msx_cartridge_set_mapper-IsValid code s v
step-IsValid (resets s) v = reset_repairs s v.chip v.fits
step-IsValid (ejects s) v = msx_cartridge_init-IsValid
step-IsValid (reads address s) v = msx_cartridge_read-IsValid address s v
step-IsValid (writes address value s h) v = msx_cartridge_write-IsValid address value s v h
step-IsValid (renders sample clock_hz rate s) v =
    msx_cartridge_render_audio-IsValid sample clock_hz rate s v

-- Whatever calls are made on a new cartridge, it has its four banks, its sound chip is in range,
-- and a loaded one holds data that is not empty and that its mapper can address.
pub ReachableCartridge-IsValid : {s : MsxCartridge} → ReachableCartridge s → IsValid s
ReachableCartridge-IsValid starts = msx_cartridge_init-IsValid
ReachableCartridge-IsValid (follows r step) = step-IsValid step (ReachableCartridge-IsValid r)
