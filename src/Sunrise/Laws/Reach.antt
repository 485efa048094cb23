-- ===== src/Sunrise/Laws/Reach.antt =====
-- Every state of the interface that calls reach: its disk is one that calls of the disk reach, and
-- its bank is inside the ROM.
use model_lib.Base.{
  ℕ, ◌+◌, ◌*◌, ◌<◌, Bool, true, false, not, ◌&&◌, none, some, arith, ◌==◌, if◌then◌else◌, nonzero,
  bit_and,
}
use model_lib.Base.Bits.{bit_and-mask}
use model_lib.Ata.Device.{Host}
use model_lib.Ata.Mount.{OpenFile, ata_init}
use model_lib.Ata.Laws.Valid.{IsWhole, IsValid}
use model_lib.Ata.Laws.Valid.Reach
use model_lib.Ata.Laws.Valid.Reach.{Reachable, powered, then_, Reachable-IsValid}
use model_lib.Sunrise.Device.{
  MsxSunriseIde, msx_sunrise_rom_size, msx_sunrise_bank_size, sunrise_write_control,
  blank_interface, sunrise_init, sunrise_reset, sunrise_install_rom, sunrise_mount_disk_mode,
  sunrise_flush_disk, sunrise_eject_disk, without_rom, sunrise_eject_rom, sunrise_take_activity,
}
use model_lib.Sunrise.Access.{
  sunrise_read_data, sunrise_write_data, sunrise_read_register, write_selected, Read, rom_value,
  sunrise_write_register, read_window, sunrise_read, write_window, sunrise_write, is_data,
  is_register, status_alias,
}

-- One call of the interface.
pub data Call (s : MsxSunriseIde) : MsxSunriseIde → Type 0 where
  read : (host : Host) (address : ℕ) → Call s (sunrise_read host s address).0
  write :
      (host : Host) (address value : ℕ) → value < 256 → Call s (sunrise_write host s address value)
  reset : Call s (sunrise_reset s)
  install : (bytes : ℕ → ℕ) (size : ℕ) → Call s (sunrise_install_rom s bytes size).0
  eject_rom : (host : Host) → Call s (sunrise_eject_rom host s).0
  mount :
      (host : Host) (path_given : Bool) (file : OpenFile) (mode : ℕ)
      → IsWhole (some file.disk)
      → Call s (sunrise_mount_disk_mode host s path_given (some file) mode).0
  not_found :
      (host : Host) (path_given : Bool) (mode : ℕ)
      → Call s (sunrise_mount_disk_mode host s path_given none mode).0
  flush : (host : Host) → Call s (sunrise_flush_disk host s).0
  eject : (host : Host) → Call s (sunrise_eject_disk host s).0
  take_activity : Call s (sunrise_take_activity s).0

pub data ReachableInterface : MsxSunriseIde → Type 0 where
  made : ReachableInterface sunrise_init
  called : {s s' : MsxSunriseIde} → ReachableInterface s → Call s s' → ReachableInterface s'

-- The interface holds a disk that can be reached, and one of its eight banks.
pub record IsHolding (s : MsxSunriseIde) : Type 0 where
  pub disk : Reachable s.master
  pub bank_to : s.bank < 8

control-IsHolding :
    (s : MsxSunriseIde) (value : ℕ) → Reachable s.master → IsHolding (sunrise_write_control s value)
unfolding sunrise_write_control
control-IsHolding s value r = record { disk = r; bank_to = omega (arith, bit_and-mask 3 _) }

reset-IsHolding : (s : MsxSunriseIde) → IsHolding s → IsHolding (sunrise_reset s)
unfolding sunrise_reset
reset-IsHolding s h = record { disk = then_ h.disk Reach.reset; bank_to = h.bank_to }

if_IsHolding :
    (b : Bool) (x y : MsxSunriseIde) → IsHolding x → IsHolding y → IsHolding (if b then x else y)
if_IsHolding true x y h k = h
if_IsHolding false x y h k = k

choice_IsHolding :
    {A : Type 0}
    → (b : Bool) (x y : MsxSunriseIde × A) → IsHolding x.0
    → IsHolding y.0
    → IsHolding (if b then x else y).0
choice_IsHolding true x y h k = h
choice_IsHolding false x y h k = k

module _ (host : Host) (s : MsxSunriseIde) (h : IsHolding s) where
  read_data-IsHolding : IsHolding (sunrise_read_data host s).0
  unfolding sunrise_read_data
  read_data-IsHolding =
      choice_IsHolding (nonzero s.selected_device) _ _ h
        (record { disk = then_ h.disk (Reach.read_word host); bank_to = h.bank_to })

  write_data-IsHolding : (value : ℕ) → IsHolding (sunrise_write_data host s value)
  unfolding sunrise_write_data
  write_data-IsHolding value =
      if_IsHolding (nonzero s.selected_device) _ _ h
        (record { disk = then_ h.disk (Reach.write_word host value); bank_to = h.bank_to })

  read_register-IsHolding : (reg : ℕ) → IsHolding (sunrise_read_register host s reg).0
  unfolding sunrise_read_register
  read_register-IsHolding reg =
      choice_IsHolding s.soft_reset _ _ h
        (choice_IsHolding (status_alias reg == 0) _ _ read_data-IsHolding h)

  write_selected-IsHolding :
      (reg value : ℕ) → value < 256 → IsHolding (write_selected host s reg value)
  unfolding write_selected
  write_selected-IsHolding reg value small =
      let selected =
        if reg == 6 then (if nonzero (bit_and value 0x10) then 1 else 0) else s.selected_device in
      if_IsHolding (nonzero selected) _ _ (record { disk = h.disk; bank_to = h.bank_to })
        (record {
          disk = then_ h.disk (Reach.write_port host reg value small);
          bank_to = h.bank_to;
        })

  write_register-IsHolding :
      (reg value : ℕ) → value < 256 → IsHolding (sunrise_write_register host s reg value)
  unfolding sunrise_write_register
  write_register-IsHolding reg value small =
      let resets = nonzero (bit_and value 4) in
      if_IsHolding s.soft_reset _ _
        (if_IsHolding (reg == 14 && not resets) _ _ (record { disk = h.disk; bank_to = h.bank_to })
          h)
        (if_IsHolding (reg == 0) _ _ (write_data-IsHolding _) (
          if_IsHolding (reg == 14 && resets) _ _
            (record { disk = then_ h.disk Reach.reset; bank_to = h.bank_to })
            (write_selected-IsHolding reg value small)))

  read_window-IsHolding : (address : ℕ) → IsHolding (read_window host s address).0
  unfolding read_window
  read_window-IsHolding address =
      choice_IsHolding (nonzero (bit_and address 1)) _ _ h
        (record { disk = read_data-IsHolding.disk; bank_to = read_data-IsHolding.bank_to })

  read-IsHolding : (address : ℕ) → IsHolding (sunrise_read host s address).0
  unfolding sunrise_read
  read-IsHolding address =
      let reg = sunrise_read_register host s (bit_and address 0x0f) in
      let outside : Read = (s, rom_value s address) in
      let below : Read = if is_register s address then reg else outside in
      let inside : Read = if is_data s address then read_window host s address else below in
      choice_IsHolding (not s.rom_loaded) (s, 0xff) inside h
        (choice_IsHolding (is_data s address) (read_window host s address) below
          (read_window-IsHolding address)
          (choice_IsHolding (is_register s address) reg outside
            (read_register-IsHolding (bit_and address 0x0f)) h))

  write_window-IsHolding : (address value : ℕ) → IsHolding (write_window host s address value)
  unfolding write_window
  write_window-IsHolding address value =
      if_IsHolding (nonzero (bit_and address 1)) _ _ (write_data-IsHolding _)
        (record { disk = h.disk; bank_to = h.bank_to })

  write-IsHolding :
      (address value : ℕ) → value < 256 → IsHolding (sunrise_write host s address value)
  unfolding sunrise_write
  write-IsHolding address value small = if_IsHolding (not s.rom_loaded) _ _ h (
      if_IsHolding (bit_and address 0xbf04 == 0x0104) _ _ (control-IsHolding s value h.disk) (
        if_IsHolding (is_data s address) _ _ (write_window-IsHolding address value)
          (if_IsHolding (is_register s address) _ _ (write_register-IsHolding _ value small) h)))

install-IsHolding :
    (s : MsxSunriseIde) (bytes : ℕ → ℕ) (size : ℕ)
    → IsHolding s
    → IsHolding (sunrise_install_rom s bytes size).0
unfolding sunrise_install_rom
install-IsHolding s bytes size h =
    let filled : MsxSunriseIde = record s { rom = bytes; rom_loaded = true } in
    let started = sunrise_reset (sunrise_write_control filled 0xff) in
    choice_IsHolding (not (size == msx_sunrise_rom_size)) (s, false) (started, true) h
      (reset-IsHolding (sunrise_write_control filled 0xff) (control-IsHolding filled 0xff h.disk))

without_rom-IsHolding :
    (host : Host) (r : MsxSunriseIde × Bool) → IsHolding r.0 → IsHolding (without_rom host r).0
unfolding without_rom
without_rom-IsHolding host (s, false) h = h
without_rom-IsHolding host (s, true) h =
    let empty : MsxSunriseIde = record s { rom = λ i. 0xff; rom_loaded = false } in
    reset-IsHolding (sunrise_write_control empty 0xff) (control-IsHolding empty 0xff h.disk)

-- One call keeps the disk reachable and the bank inside the ROM.
Call-IsHolding : {s s' : MsxSunriseIde} → Call s s' → IsHolding s → IsHolding s'
unfolding sunrise_mount_disk_mode sunrise_flush_disk sunrise_eject_disk sunrise_eject_rom
    sunrise_take_activity
Call-IsHolding {s} (read host address) h = read-IsHolding host s h address
Call-IsHolding {s} (write host address value small) h = write-IsHolding host s h address value small
Call-IsHolding {s} reset h = reset-IsHolding s h
Call-IsHolding {s} (install bytes size) h = install-IsHolding s bytes size h
Call-IsHolding {s} (eject_rom host) h =
    without_rom-IsHolding host (sunrise_eject_disk host s)
      (record { disk = then_ h.disk (Reach.unmount host); bank_to = h.bank_to })
Call-IsHolding {s} (mount host path_given file mode w) h =
    choice_IsHolding (not s.rom_loaded) _ _ h (record {
      disk = then_ h.disk (Reach.mount host path_given file mode w);
      bank_to = h.bank_to;
    })
Call-IsHolding {s} (not_found host path_given mode) h =
    choice_IsHolding (not s.rom_loaded) _ _ h
      (record { disk = then_ h.disk (Reach.not_found host path_given mode); bank_to = h.bank_to })
Call-IsHolding {s} (flush host) h = record {
  disk = then_ h.disk (Reach.flush host);
  bank_to = h.bank_to;
}
Call-IsHolding {s} (eject host) h = record {
  disk = then_ h.disk (Reach.unmount host);
  bank_to = h.bank_to;
}
Call-IsHolding {s} take_activity h = record {
  disk = then_ h.disk Reach.take_activity;
  bank_to = h.bank_to;
}

init-IsHolding : IsHolding sunrise_init
unfolding sunrise_init
init-IsHolding =
    control-IsHolding (record blank_interface { rom = λ i. 0xff; master = ata_init }) 0xff powered

Reachable-IsHolding : {s : MsxSunriseIde} → ReachableInterface s → IsHolding s
Reachable-IsHolding made = init-IsHolding
Reachable-IsHolding (called r call) = Call-IsHolding call (Reachable-IsHolding r)

-- In every state of the interface that calls reach, whatever the host answers to each, the disk is
-- in a valid state, and every address gives a byte inside the ROM: the bank's start and the low
-- fourteen bits of the address are below the size of the ROM.
pub ReachableInterface-IsValid :
    {s : MsxSunriseIde} (address : ℕ)
    → ReachableInterface s
    → IsValid s.master
      × (s.bank * msx_sunrise_bank_size + bit_and address 0x3fff < msx_sunrise_rom_size)
ReachableInterface-IsValid {s} address r =
    let h = Reachable-IsHolding r in
    (Reachable-IsValid h.disk, omega (arith, h.bank_to, bit_and-mask 14 address))
