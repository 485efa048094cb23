-- ===== src/Rtc/Persist.antt =====
-- Loading and saving the clock. A file is the list of its bytes; what the host answers to each
-- call is an argument, since the host is not part of the program.
use model_lib.Base.{
  ℕ, zero, suc, ◌+◌, ◌-◌, ◌*◌, Bool, true, false, not, ◌&&◌, Option, none, some, List, [], ◌∷◌,
  ◌++◌, ltb, ◌==◌, if◌then◌else◌, nonzero, length, get_or, set, replicate, bit_and,
}
use model_lib.Rtc.Chip.{Registers, MsxRtc}
use model_lib.Rtc.Calendar.{rtc_advance_seconds}
use model_lib.Rtc.Record.{
  write_le32, read_le32, write_le64, read_le64, persistence_checksum, valid_persisted_registers,
}

abbrev pub persistence_magic : List ℕ
persistence_magic = 49 ∷ 57 ∷ 56 ∷ 51 ∷ 82 ∷ 84 ∷ 67 ∷ 0 ∷ []

-- RTC_MAX_OFFLINE_SECONDS.
abbrev pub max_offline_seconds : ℕ
max_offline_seconds = 6324480000

-- The message that is left in `error`.
pub data Message : Type 0 where
  invalid_path cannot_open cannot_read invalid_size cannot_close corrupted : Message
  invalid_registers unsupported_flags outside_range : Message
  cannot_create cannot_flush cannot_replace : Message

-- The results 0, 1 and -1 of `rtc_load_persistence`.
pub data LoadResult : Type 0 where
  loaded : MsxRtc → LoadResult
  no_file : LoadResult
  refused : Message → LoadResult

-- What the host answers when the file is read: `fopen` finds none, fails otherwise, or gives the
-- bytes that can be read, whether an error ended them, and whether the file can be closed.
pub data Opened : Type 0 where
  missing failed : Opened
  opened : (bytes : List ℕ) (read_error : Bool) (closed : Bool) → Opened

abbrev pub bytes_equal : List ℕ → List ℕ → Bool
bytes_equal [] ys = true
bytes_equal (x ∷ xs) [] = false
bytes_equal (x ∷ xs) (y ∷ ys) = (x == y) && bytes_equal xs ys

-- `memcpy(registers, data + 28, 52)`.
abbrev pub payload : List ℕ → Registers
payload bytes block reg = get_or bytes (28 + 13 * block + reg) 0

unfoldable pub valid_header : List ℕ → Bool
valid_header bytes =
    bytes_equal persistence_magic bytes
    && read_le32 bytes 8 == 2
    && read_le32 bytes 12 == 52
    && read_le32 bytes 80 == persistence_checksum bytes 80

unfoldable pub load_record : MsxRtc → List ℕ → ℕ → LoadResult
load_record rtc bytes host_seconds =
    let saved_seconds = read_le64 bytes 16 in
    let flags = read_le32 bytes 24 in
    let kept = record rtc { registers = payload bytes; dirty = false } in
    if not (valid_header bytes)
    then refused corrupted
    else if not (valid_persisted_registers (payload bytes))
    then refused invalid_registers
    else if nonzero (bit_and flags 0xfffffffe)
    then refused unsupported_flags
    else if ltb saved_seconds host_seconds && ltb max_offline_seconds (host_seconds - saved_seconds)
    then refused outside_range
    else loaded (
        if nonzero (bit_and flags 1) && ltb saved_seconds host_seconds
        then rtc_advance_seconds kept (host_seconds - saved_seconds)
        else kept)

unfoldable pub rtc_load_persistence : MsxRtc → Bool → Opened → ℕ → LoadResult
unfolding load_record
rtc_load_persistence rtc path_given missing host_seconds =
    if path_given then no_file else refused invalid_path
rtc_load_persistence rtc path_given failed host_seconds =
    if path_given then refused cannot_open else refused invalid_path
rtc_load_persistence rtc path_given (opened bytes read_error closed) host_seconds =
    if not path_given
    then refused invalid_path
    else if not (length bytes == 84)
    then refused (if read_error then cannot_read else invalid_size)
    else if not closed
    then refused cannot_close
    else load_record rtc bytes host_seconds

-- The bytes of one block, from register `reg`, with `n` to go.
unfoldable pub block_bytes : Registers → ℕ → ℕ → ℕ → List ℕ
block_bytes registers block reg zero = []
block_bytes registers block reg (suc n) =
    registers block reg ∷ block_bytes registers block (reg + 1) n

unfoldable pub register_bytes : Registers → List ℕ
unfolding block_bytes
register_bytes registers =
    block_bytes registers 0 0 13
    ++ block_bytes registers 1 0 13
    ++ block_bytes registers 2 0 13
    ++ block_bytes registers 3 0 13

-- `memcpy(data + offset, source, size)`.
unfoldable pub copy_bytes : List ℕ → ℕ → List ℕ → List ℕ
copy_bytes bytes offset [] = bytes
copy_bytes bytes offset (b ∷ source) = copy_bytes (set bytes offset b) (offset + 1) source

-- The record before its checksum is stored.
unfoldable pub unsealed_record : MsxRtc → ℕ → List ℕ
unfolding write_le32 write_le64 register_bytes copy_bytes
unsealed_record rtc host_seconds =
    let bytes = copy_bytes (replicate 84 0) 0 persistence_magic in
    let bytes = write_le32 bytes 8 2 in
    let bytes = write_le32 bytes 12 52 in
    let bytes = write_le64 bytes 16 host_seconds in
    let bytes = write_le32 bytes 24 (if nonzero (bit_and rtc.mode 8) then 1 else 0) in
    copy_bytes bytes 28 (register_bytes rtc.registers)

unfoldable pub saved_record : MsxRtc → ℕ → List ℕ
saved_record rtc host_seconds =
    let bytes = unsealed_record rtc host_seconds in
    write_le32 bytes 80 (persistence_checksum bytes 80)

-- The file and its temporary neighbour.
pub record Files : Type 0 where
  pub target : Option (List ℕ)
  pub temporary : Option (List ℕ)

-- Whether each call of the host succeeds.
pub record Host : Type 0 where
  pub created : Bool
  pub written : Bool
  pub flushed : Bool
  pub closed : Bool
  pub renamed : Bool

unfoldable pub rtc_save_persistence :
    MsxRtc → Bool → Host → Files → ℕ → MsxRtc × Files × Option Message
unfolding saved_record
rtc_save_persistence rtc path_fits host files host_seconds =
    let removed : Files = record files { temporary = none } in
    let renamed : Files = record {
      target = some (saved_record rtc host_seconds);
      temporary = none;
    } in
    if not path_fits
    then (rtc, files, some invalid_path)
    else if not host.created
    then (rtc, files, some cannot_create)
    else if not (host.written && host.flushed)
    then (rtc, removed, some cannot_flush)
    else if not host.closed
    then (rtc, removed, some cannot_close)
    else if not host.renamed
    then (rtc, removed, some cannot_replace)
    else (record rtc { dirty = false }, renamed, none)
