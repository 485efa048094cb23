-- ===== src/Scc/Chip.antt =====
-- The registers of the chip: the struct of src/scc.h and the access functions of src/scc.c.
-- A sample of `wave` is kept as its byte; `s8` reads it where the C code does.
use model_lib.Base.{ℕ, ◌-◌, bit_and, bit_or, Bool, false, ◌&&◌, List, []}
use model_lib.Base.{
  ltb, leb, ◌==◌, if◌then◌else◌, nonzero, u16, ◌<<<◌, ◌>>>◌, get_or, set, replicate,
}

pub data SccMode : Type 0 where
  scc_mode_compatible scc_mode_plus : SccMode

abbrev pub scc_channels : ℕ
scc_channels = 5

abbrev pub scc_wave_size : ℕ
scc_wave_size = 32

pub record Scc : Type 0 where
  pub wave : List (List ℕ)
  pub period : List ℕ
  pub original_period : List ℕ
  pub counter : List ℕ
  pub position : List ℕ
  pub volume : List ℕ
  pub enabled : ℕ
  pub deform : ℕ
  pub mode : SccMode
  pub clock_fraction : ℕ

-- `for (channel = 0; channel < SCC_CHANNELS; ++channel)`.
abbrev pub for_channels : (ℕ → Scc → Scc) → Scc → Scc
for_channels f s = f 4 (f 3 (f 2 (f 1 (f 0 s))))

-- The period that a register gives under the deformation.
unfoldable pub deformed_period : ℕ → ℕ → ℕ
deformed_period deform original =
    let period = bit_and original 0x0fff in
    if nonzero (bit_and deform 0x02)
    then bit_and period 0x00ff
    else if nonzero (bit_and deform 0x01)
    then period >>> 8
    else period

unfoldable pub update_period : ℕ → Scc → Scc
update_period channel s = record s {
  period =
      set s.period channel (u16 (deformed_period s.deform (get_or s.original_period channel 0)));
  counter = set s.counter channel 0;
  position = if nonzero (bit_and s.deform 0x20) then set s.position channel 0 else s.position;
}

unfoldable pub scc_reset : Scc → Scc
scc_reset s = record s {
  enabled = 0;
  deform = 0;
  clock_fraction = 0;
  counter = replicate scc_channels 0;
  position = replicate scc_channels 0;
}

unfoldable pub scc_init : Scc
scc_init = scc_reset (record {
  wave = replicate scc_channels (replicate scc_wave_size 0xff);
  period = replicate scc_channels 0;
  original_period = replicate scc_channels 0;
  counter = replicate scc_channels 0;
  position = replicate scc_channels 0;
  volume = replicate scc_channels 15;
  enabled = 0;
  deform = 0;
  mode = scc_mode_compatible;
  clock_fraction = 0;
})

unfoldable pub scc_set_mode : SccMode → Scc → Scc
scc_set_mode mode s = record s { mode = mode }

unfoldable pub read_wave : ℕ → ℕ → Scc → ℕ
read_wave channel address s = get_or (get_or s.wave channel []) (bit_and address 0x1f) 0

-- A read of the deformation register writes it.
abbrev read_deform : ℕ → Scc → ℕ × Scc
read_deform address s =
    if leb 0xc0 address && ltb address 0xe0 then (0xff, record s { deform = 0xff }) else (0xff, s)

unfoldable pub scc_read_plus : ℕ → Scc → ℕ × Scc
scc_read_plus address s =
    if ltb address 0xa0 then (read_wave (address >>> 5) address s, s) else read_deform address s

unfoldable pub scc_read_compatible : ℕ → Scc → ℕ × Scc
scc_read_compatible address s =
    if ltb address 0x80
    then (read_wave (address >>> 5) address s, s)
    else if leb 0xa0 address && ltb address 0xc0
    then (read_wave 4 address s, s)
    else read_deform address s

unfoldable pub scc_read : ℕ → Scc → ℕ × Scc
scc_read address s = elim s.mode [
  | scc_mode_plus ↦ scc_read_plus address s
  | scc_mode_compatible ↦ scc_read_compatible address s
]

abbrev pub set_sample : ℕ → ℕ → ℕ → List (List ℕ) → List (List ℕ)
set_sample channel at value wave = set wave channel (set (get_or wave channel []) at value)

-- In the compatible mode channel 3 also writes channel 4.
abbrev pub mirrors : SccMode → ℕ → Bool
mirrors scc_mode_compatible channel = channel == 3
mirrors scc_mode_plus channel = false

unfoldable pub write_wave : ℕ → ℕ → ℕ → Scc → Scc
write_wave channel address value s =
    let at = bit_and address 0x1f in
    let own = set_sample channel at value s.wave in
    if leb scc_channels channel
    then s
    else record s { wave = if mirrors s.mode channel then set_sample 4 at value own else own }

unfoldable pub write_frequency_volume : ℕ → ℕ → Scc → Scc
write_frequency_volume address value s =
    let reg = bit_and address 0x0f in
    let channel = reg >>> 1 in
    let old = get_or s.original_period channel 0 in
    let new =
      if nonzero (bit_and reg 1)
      then bit_or (bit_and old 0x00ff) (u16 (bit_and value 0x0f) <<< 8)
      else bit_or (bit_and old 0x0f00) value in
    if ltb reg 10
    then update_period channel
        (record s { original_period = set s.original_period channel (u16 new) })
    else if ltb reg 15
    then record s { volume = set s.volume (reg - 10) (bit_and value 0x0f) }
    else record s { enabled = bit_and value 0x1f }

unfoldable pub write_deform : ℕ → Scc → Scc
write_deform value s = for_channels update_period (record s { deform = value })

unfoldable pub scc_write_plus : ℕ → ℕ → Scc → Scc
scc_write_plus address value s =
    if ltb address 0xa0
    then write_wave (address >>> 5) address value s
    else if ltb address 0xc0
    then write_frequency_volume address value s
    else if ltb address 0xe0
    then write_deform value s
    else s

unfoldable pub scc_write_compatible : ℕ → ℕ → Scc → Scc
scc_write_compatible address value s =
    if ltb address 0x80
    then write_wave (address >>> 5) address value s
    else if ltb address 0xa0
    then write_frequency_volume address value s
    else if leb 0xc0 address && ltb address 0xe0
    then write_deform value s
    else s

unfoldable pub scc_write : ℕ → ℕ → Scc → Scc
scc_write address value s = elim s.mode [
  | scc_mode_plus ↦ scc_write_plus address value s
  | scc_mode_compatible ↦ scc_write_compatible address value s
]
