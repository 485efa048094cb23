-- ===== src/Sunrise/Laws/Window.antt =====
-- Reading sectors through the memory window: a command written to register 7, and then the bytes
-- of the sectors in order.
use mathlib.Core.Path.{subst}
use model_lib.Base.{
  ℕ, zero, suc, ◌+◌, ◌*◌, ◌/◌, ◌%◌, ◌^◌, ◌<◌, ◌≡◌, refl, sym, ap, ◌∙◌, true, false, some, arith,
  ==_iff, u8, u16, ◌<<<◌, ◌>>>◌, get_or, bit_and, bit_or,
}
use model_lib.Base.Bits.{bit_or-fields, bit_or_comm}
use model_lib.Ata.Device.{Disk, Host, ata_lba, ata_requested_sectors}
use model_lib.Ata.Transfer.{ata_read_data, ata_write_register}
use model_lib.Ata.Laws.Words.{word_at}
use model_lib.Ata.Laws.Access.{IsReliable}
use model_lib.Ata.Laws.Reading.{InRange, reads}
use model_lib.Ata.Laws.Commands.{IsRead, read_command_lem}
use model_lib.Sunrise.Device.{MsxSunriseIde}
use model_lib.Sunrise.Access.{
  is_data, is_register, sunrise_read_data, read_window, sunrise_read, write_selected,
  sunrise_write_register, sunrise_write,
}

-- The ROM is installed, the registers are enabled and the master drive is selected.
pub record IsListening (s : MsxSunriseIde) : Type 0 where
  pub loaded : s.rom_loaded ≡ true
  pub enabled : s.registers_enabled ≡ true
  pub no_reset : s.soft_reset ≡ false
  pub selected : s.selected_device ≡ 0

-- An address of the data window, even or odd.
pub record IsDataAddress (parity address : ℕ) : Type 0 where
  pub window : bit_and address 0x3e00 ≡ 0x3c00
  pub low_bit : bit_and address 1 ≡ parity

module _ (host : Host) (s : MsxSunriseIde) (on : IsListening s) where
  read_even :
      (address : ℕ)
      → IsDataAddress 0 address
      → let (master, word) = ata_read_data host s.master in
        sunrise_read host s address
        ≡ (record s { master = master; read_latch = u8 (word >>> 8) }, u8 word)
  unfolding sunrise_read is_data read_window sunrise_read_data
  read_even address a =
      let here = (==_iff (bit_and address 0x3e00) 0x3c00).1 a.window in
      simp (on.loaded, on.enabled, here, a.low_bit, on.selected) refl

  read_odd :
      (address : ℕ) → IsDataAddress 1 address → sunrise_read host s address ≡ (s, s.read_latch)
  unfolding sunrise_read is_data read_window
  read_odd address a =
      let here = (==_iff (bit_and address 0x3e00) 0x3c00).1 a.window in
      simp (on.loaded, on.enabled, here, a.low_bit) refl

  -- A write to 0x7e07 is a command of the disk.
  command_written :
      (command : ℕ)
      → sunrise_write host s 0x7e07 command
        ≡ record s { master = ata_write_register host s.master 7 command }
  unfolding sunrise_write is_data is_register sunrise_write_register write_selected
  command_written command = simp (on.loaded, on.enabled, on.no_reset, on.selected) refl

-- `n` words, each as an even and an odd read.
unfoldable pub read_pairs : Host → ℕ → ℕ → ℕ → MsxSunriseIde → MsxSunriseIde
read_pairs host even odd zero s = s
read_pairs host even odd (suc n) s =
    (sunrise_read host (sunrise_read host (read_pairs host even odd n s) even).0 odd).0

-- What the pairs leave: the disk after as many words, and the interface as it was.
pub record Paired (host : Host) (n : ℕ) (s s' : MsxSunriseIde) : Type 0 where
  pub listening : IsListening s'
  pub disk : s'.master ≡ reads host n s.master

pair_read :
    (host : Host) (s : MsxSunriseIde) (even odd : ℕ)
    → IsListening s
    → IsDataAddress 0 even
    → IsDataAddress 1 odd
    → (sunrise_read host (sunrise_read host s even).0 odd) ≡ (
      record s {
        master = (ata_read_data host s.master).0;
        read_latch = u8 ((ata_read_data host s.master).1 >>> 8);
      },
      u8 ((ata_read_data host s.master).1 >>> 8),
    )
pair_read host s even odd on e o =
    let (master, word) = ata_read_data host s.master in
    let taken : MsxSunriseIde = record s { master = master; read_latch = u8 (word >>> 8) } in
    let still : IsListening taken = record {
      loaded = on.loaded;
      enabled = on.enabled;
      no_reset = on.no_reset;
      selected = on.selected;
    } in
    ap (λ (r : MsxSunriseIde × ℕ). sunrise_read host r.0 odd) (read_even host s on even e)
    ∙ read_odd host taken still odd o

-- The bytes of a word.
word_bytes :
    (low high : ℕ)
    → low < 256
    → high < 256
    → (u8 (bit_or low (u16 (high <<< 8))) ≡ low) × (u8 (bit_or low (u16 (high <<< 8)) >>> 8) ≡ high)
word_bytes low high h k =
    let shifted : u16 (high <<< 8) ≡ high * 2 ^ 8 = omega arith in
    let sum : bit_or low (u16 (high <<< 8)) ≡ high * 2 ^ 8 + low =
      ap (bit_or low) shifted
      ∙ bit_or_comm low (high * 2 ^ 8)
      ∙ bit_or-fields 8 high low (omega arith) in
    (omega (arith, sum), omega (arith, sum))

module _ (host : Host) (s : MsxSunriseIde) (even odd : ℕ) (on : IsListening s)
    (e : IsDataAddress 0 even) (o : IsDataAddress 1 odd) where
  read_pairs-Paired : (n : ℕ) → Paired host n s (read_pairs host even odd n s)
  unfolding read_pairs reads
  read_pairs-Paired zero = record { listening = on; disk = refl }
  read_pairs-Paired (suc n) =
      let p = read_pairs-Paired n in
      let before = read_pairs host even odd n s in
      let step =
        ap (λ (r : MsxSunriseIde × ℕ). r.0) (pair_read host before even odd p.listening e o) in
      subst (Paired host (suc n) s) (sym step) (record {
        listening = record {
          loaded = p.listening.loaded;
          enabled = p.listening.enabled;
          no_reset = p.listening.no_reset;
          selected = p.listening.selected;
        };
        disk = ap (λ m. (ata_read_data host m).0) p.disk;
      })

  bytes_read :
      (i low high : ℕ)
      → low < 256
      → high < 256
      → (ata_read_data host (reads host i s.master)).1 ≡ bit_or low (u16 (high <<< 8))
      → let s' = read_pairs host even odd i s in
        ((sunrise_read host s' even).1 ≡ low)
        × ((sunrise_read host (sunrise_read host s' even).0 odd).1 ≡ high)
  bytes_read i low high l h word =
      let p = read_pairs-Paired i in
      let s' = read_pairs host even odd i s in
      let same : (ata_read_data host s'.master).1 ≡ bit_or low (u16 (high <<< 8)) =
        ap (λ m. (ata_read_data host m).1) p.disk ∙ word in
      let (first, second) = word_bytes low high l h in
      (
        ap (λ (r : MsxSunriseIde × ℕ). r.1) (read_even host s' p.listening even e)
            ∙ ap u8 same
            ∙ first,
        ap (λ (r : MsxSunriseIde × ℕ). r.1) (pair_read host s' even odd p.listening e o)
            ∙ ap (λ v. u8 (v >>> 8)) same
            ∙ second,
      )

-- With the ROM loaded, the registers enabled, no soft reset and the master selected, on a host that
-- does not fail and a disk of bytes: after READ SECTORS of a range inside the image is written to
-- register 7, reads of one even and one odd address of the data window in turn give the bytes of
-- the sectors in order.
pub sunrise_read_lem :
    (host : Host) (disk : Disk) (s : MsxSunriseIde) (command even odd i : ℕ)
    → IsReliable host
    → IsListening s
    → IsRead command
    → s.master.image ≡ some disk
    → ((lba j : ℕ) → get_or (disk lba) j 0 < 256)
    → InRange (ata_lba s.master) (ata_requested_sectors s.master) s.master.sector_count_total
    → IsDataAddress 0 even
    → IsDataAddress 1 odd
    → i < 256 * ata_requested_sectors s.master
    → let bytes = disk (ata_lba s.master + i / 256) in
      let s' = read_pairs host even odd i (sunrise_write host s 0x7e07 command) in
      ((sunrise_read host s' even).1 ≡ get_or bytes (2 * (i % 256)) 0)
      × ((sunrise_read host (sunrise_read host s' even).0 odd).1
          ≡ get_or bytes (2 * (i % 256) + 1) 0)
unfolding word_at
sunrise_read_lem host disk s command even odd i works on c mounted small range e o lt =
    let k = i % 256 in
    let bytes = disk (ata_lba s.master + i / 256) in
    let started : MsxSunriseIde = record s {
      master = ata_write_register host s.master 7 command;
    } in
    let still : IsListening started = record {
      loaded = on.loaded;
      enabled = on.enabled;
      no_reset = on.no_reset;
      selected = on.selected;
    } in
    let (word, over) = read_command_lem host disk s.master command i works c mounted range lt in
    rw (command_written host s on command) (
      bytes_read host started even odd still e o i (get_or bytes (2 * k) 0)
        (get_or bytes (2 * k + 1) 0) (small (ata_lba s.master + i / 256) (2 * k))
        (small (ata_lba s.master + i / 256) (2 * k + 1)) word)
