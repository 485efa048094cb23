-- ===== src/Ata/Laws/Valid/Reach.antt =====
-- Every state that calls of the device can reach is valid.
use model_lib.Base.{
  ℕ, ◌<◌, ◌≡◌, inl, inr, refl, Bool, true, false, not, ◌&&◌, ◌||◌, Option, none, some, [], ◌∷◌,
  arith, if◌then◌else◌, one_of, Bool-cases, bit_and,
}
use model_lib.Ata.Device.{
  Disk, Host, HostError, flush_failed, cannot_open, invalid_image, bad_size, AtaDevice, read_only,
  read_write, is_some, blank_sector, ata_host_error, ata_clear_host_error,
}
use model_lib.Ata.Mount.{
  blank_device, ata_init, ata_reset, OpenFile, ata_flush, emptied, with_file, detach, detach_if,
  ata_unmount, ata_destroy, attach, attach_if, mount_file, ata_mount_mode, valid_size,
  ata_take_activity,
}
use model_lib.Ata.Transfer.{ata_read_data, ata_write_data, ata_write_register}
use model_lib.Ata.Laws.Valid.{IsWhole, idle, IsValid}
use model_lib.Ata.Laws.Valid.Transfer.{read_data-IsValid, write_data-IsValid}
use model_lib.Ata.Laws.Valid.Commands.{write_register-IsValid}

-- One call, under any host.
pub data Step (ata : AtaDevice) : AtaDevice → Type 0 where
  read_word : (host : Host) → Step ata (ata_read_data host ata).0
  write_word : (host : Host) (value : ℕ) → Step ata (ata_write_data host ata value)
  write_port :
      (host : Host) (reg value : ℕ) → value < 256 → Step ata (ata_write_register host ata reg value)
  reset : Step ata (ata_reset ata)
  flush : (host : Host) → Step ata (ata_flush host ata).0
  unmount : (host : Host) → Step ata (ata_unmount host ata).0
  destroy : (host : Host) → Step ata (ata_destroy host ata)
  take_activity : Step ata (ata_take_activity ata).0
  mount :
      (host : Host) (path_given : Bool) (file : OpenFile) (mode : ℕ)
      → IsWhole (some file.disk)
      → Step ata (ata_mount_mode host ata path_given (some file) mode).0
  not_found :
      (host : Host) (path_given : Bool) (mode : ℕ)
      → Step ata (ata_mount_mode host ata path_given none mode).0

pub data Reachable : AtaDevice → Type 0 where
  powered : Reachable ata_init
  then_ : {ata ata' : AtaDevice} → Reachable ata → Step ata ata' → Reachable ata'

reset-IsValid : (ata : AtaDevice) → IsWhole ata.image → IsValid (ata_reset ata)
unfolding ata_reset blank_sector
reset-IsValid ata w = record {
  sound = record {
    buffer = refl;
    image_whole = w;
    low_byte = omega arith;
    mid_byte = omega arith;
    high_byte = omega arith;
    count_byte = omega arith;
  };
  phase = idle (record { no_read = refl; no_write = refl; no_data = silent ata.image });
}
  where
    silent : (o : Option Disk) → bit_and (if is_some o then 0x50 else 0) 8 ≡ 0
    silent none = refl
    silent (some disk) = refl

init-IsValid : IsValid ata_init
unfolding ata_init
init-IsValid = record {
  sound = record {
    buffer = refl;
    image_whole = tt;
    low_byte = omega arith;
    mid_byte = omega arith;
    high_byte = omega arith;
    count_byte = omega arith;
  };
  phase = idle (record { no_read = refl; no_write = refl; no_data = refl });
}

blank-IsValid : IsValid blank_device
unfolding blank_device
blank-IsValid = record {
  sound = record {
    buffer = refl;
    image_whole = tt;
    low_byte = omega arith;
    mid_byte = omega arith;
    high_byte = omega arith;
    count_byte = omega arith;
  };
  phase = idle (record { no_read = refl; no_write = refl; no_data = refl });
}

host_error-IsValid :
    (ata : AtaDevice) (device_error : Bool) (message : HostError)
    → IsValid ata
    → IsValid (ata_host_error ata device_error message)
unfolding ata_host_error
host_error-IsValid ata device_error message v = record { sound = v.sound; phase = v.phase }

flush-IsValid : (host : Host) (ata : AtaDevice) → IsValid ata → IsValid (ata_flush host ata).0
unfolding ata_flush
flush-IsValid host ata v = elim (Bool-cases (not (is_some ata.image) || not ata.dirty)) [
  | inl e ↦ simp e v
  | inr e ↦ elim (Bool-cases (host.flush_fails || host.sync_fails)) [
    | inl f ↦ simp (e, f) (host_error-IsValid ata true flush_failed v)
    | inr f ↦ simp (e, f) (record { sound = v.sound; phase = v.phase })
  ]
]

-- The device after it has lost its image.
lost-IsValid :
    (failed : Bool) (ata : AtaDevice)
    → IsWhole ata.image
    → IsValid (if failed then ata_reset ata else ata_clear_host_error (ata_reset ata))
unfolding ata_clear_host_error
lost-IsValid true ata w = reset-IsValid ata w
lost-IsValid false ata w =
    let v = reset-IsValid ata w in record { sound = v.sound; phase = v.phase }

detach-IsValid : (host : Host) (ata : AtaDevice) → IsValid (detach host ata).0
unfolding detach emptied
detach-IsValid host ata = lost-IsValid (is_some ata.image && host.close_fails) (emptied host ata) tt

detach_if-IsValid :
    (host : Host) (r : AtaDevice × Bool) → IsValid r.0 → IsValid (detach_if host r).0
unfolding detach_if
detach_if-IsValid host (ata, true) v = detach-IsValid host ata
detach_if-IsValid host (ata, false) v = v

unmount-IsValid : (host : Host) (ata : AtaDevice) → IsValid ata → IsValid (ata_unmount host ata).0
unfolding ata_unmount
unmount-IsValid host ata v = detach_if-IsValid host (ata_flush host ata) (flush-IsValid host ata v)

attach_if-IsValid :
    (host : Host) (r : AtaDevice × Bool) (file : OpenFile) (mode : ℕ)
    → IsWhole (some file.disk)
    → IsValid r.0
    → IsValid (attach_if host r file mode).0
unfolding attach_if attach with_file ata_clear_host_error
attach_if-IsValid host (ata, true) file mode w v = reset-IsValid (with_file host ata file mode) w
attach_if-IsValid host (ata, false) file mode w v = v

released-IsValid :
    (host : Host) (ata : AtaDevice)
    → IsValid ata
    → IsValid (if is_some ata.image then ata_unmount host ata else (ata, true)).0
released-IsValid host ata v = elim (Bool-cases (is_some ata.image)) [
  | inl e ↦ simp e (unmount-IsValid host ata v)
  | inr e ↦ simp e v
]

mount_file-IsValid :
    (host : Host) (ata : AtaDevice) (file : OpenFile) (mode : ℕ)
    → IsWhole (some file.disk)
    → IsValid ata
    → IsValid (mount_file host ata (some file) mode).0
unfolding mount_file
mount_file-IsValid host ata file mode w v = elim (Bool-cases (valid_size file)) [
  | inl e ↦ simp e (attach_if-IsValid host _ file mode w (released-IsValid host ata v))
  | inr e ↦ simp e (host_error-IsValid ata false bad_size v)
]

mount-IsValid :
    (host : Host) (ata : AtaDevice) (path_given : Bool) (file : Option OpenFile) (mode : ℕ)
    → IsValid ata
    → IsValid (mount_file host ata file mode).0
    → IsValid (ata_mount_mode host ata path_given file mode).0
unfolding ata_mount_mode
mount-IsValid host ata path_given file mode v m =
    elim (Bool-cases (not path_given || not (one_of mode (read_only ∷ read_write ∷ [])))) [
      | inl e ↦ simp e (host_error-IsValid ata false invalid_image v)
      | inr e ↦ simp e m
    ]

-- One call keeps the state valid.
Step-IsValid : {ata ata' : AtaDevice} → Step ata ata' → IsValid ata → IsValid ata'
unfolding ata_take_activity ata_destroy mount_file
Step-IsValid {ata} (read_word host) v = read_data-IsValid host ata v
Step-IsValid {ata} (write_word host value) v = write_data-IsValid host ata value v
Step-IsValid {ata} (write_port host reg value h) v = write_register-IsValid host ata reg value h v
Step-IsValid {ata} reset v = reset-IsValid ata v.sound.image_whole
Step-IsValid {ata} (flush host) v = flush-IsValid host ata v
Step-IsValid {ata} (unmount host) v = unmount-IsValid host ata v
Step-IsValid {ata} (destroy host) v = blank-IsValid
Step-IsValid {ata} take_activity v = record { sound = v.sound; phase = v.phase }
Step-IsValid {ata} (mount host path_given file mode w) v =
    mount-IsValid host ata path_given (some file) mode v (mount_file-IsValid host ata file mode w v)
Step-IsValid {ata} (not_found host path_given mode) v =
    mount-IsValid host ata path_given none mode v (host_error-IsValid ata false cannot_open v)

-- In every state that calls reach, whatever the host answers to each: at most one direction of a
-- transfer is open; one that is open offers data at an even place inside the buffer and has between
-- 1 and 256 sectors left, which are inside the image, or it is IDENTIFY; one that writes has a
-- writable image; without one no data is offered; and the buffer and the image are whole sectors.
pub Reachable-IsValid : {ata : AtaDevice} → Reachable ata → IsValid ata
Reachable-IsValid powered = init-IsValid
Reachable-IsValid (then_ r step) = Step-IsValid step (Reachable-IsValid r)
