-- ===== src/Ata/Laws/Valid/Commands.antt =====
-- The command register and the task file keep the state valid.
use model_lib.Base.{
  switch-All, ℕ, ◌<◌, ◌≡◌, inl, inr, refl, Bool, true, false, not, ◌||◌, arith, ◌==◌, ==_iff,
  Bool-cases, bit_and,
}
use model_lib.Ata.Device.{
  Host, AtaDevice, blank_sector, read_write, status_data, ata_error_unc, ata_error_idnf,
  ata_error_abrt, ata_host_error, ata_set_error, ata_signature, is_some,
}
use model_lib.Ata.Sectors.{ata_load_sector}
use model_lib.Ata.Mount.{ata_flush}
use model_lib.Ata.Execute.{
  begin_command, set_range, past_end, start_read, write_sectors, commands, read_sectors,
  finish_flush, flush_cache, ata_execute,
}
use model_lib.Ata.Transfer.{registers, ata_write_register}
use model_lib.Ata.Laws.Valid.{
  IsSound, IsIdle, Remaining, reading, writing, IsValid, set_error-IsValid,
}
use model_lib.Ata.Laws.Valid.Access.{Loads, whole, fails, load_sector-Loads}
use model_lib.Ata.Laws.Valid.Answers.{
  range-Remaining, begun-IsIdle, ready-IsValid, identify-IsValid, task-IsSound, native_max-IsValid,
  signature-IsSound, signature-IsIdle, set_features-IsValid, ranged-IsSound,
}

write_sectors-IsValid :
    (ata : AtaDevice)
    → IsSound ata
    → IsIdle ata
    → ata.transfer_offset ≡ 0
    → IsValid (write_sectors ata)
unfolding write_sectors
write_sectors-IsValid ata s i z =
    let sound = ranged-IsSound ata s in
    elim (Bool-cases (ata.image_mode == read_write)) [
      | inr e ↦ simp e (set_error-IsValid (set_range ata) ata_error_abrt sound)
      | inl e ↦ elim (Bool-cases (past_end (set_range ata))) [
        | inl f ↦ simp (e, f) (set_error-IsValid (set_range ata) ata_error_idnf sound)
        | inr f ↦
            simp (e, f) (started (range-Remaining ata s f) ((==_iff ata.image_mode read_write).0 e))
      ]
    ]
  where
    started :
        Remaining (set_range ata).sectors_left (set_range ata).transfer_lba ata.sector_count_total
        → ata.image_mode ≡ read_write
        → IsValid (record (set_range ata) {
          sector = blank_sector;
          transfer_write = true;
          status = status_data;
        })
    started r m =
        unfold set_range blank_sector in
        record {
          sound = record {
            buffer = refl;
            image_whole = s.image_whole;
            low_byte = s.low_byte;
            mid_byte = s.mid_byte;
            high_byte = s.high_byte;
            count_byte = s.count_byte;
          };
          phase =
              writing (record { offset = omega (arith, z); even = omega (arith, z); offers = refl })
                i.no_read refl m r;
        }

module _ (host : Host) where
  read_started :
      (ata : AtaDevice) (r : AtaDevice × Bool)
      → IsSound ata
      → ata.transfer_write ≡ false
      → ata.transfer_offset ≡ 0
      → Remaining ata.sectors_left ata.transfer_lba ata.sector_count_total
      → Loads ata r
      → IsValid (start_read r)
  unfolding start_read
  read_started ata r s wr z im (whole bytes e q) = rw q (record {
    sound = record {
      buffer = e;
      image_whole = s.image_whole;
      low_byte = s.low_byte;
      mid_byte = s.mid_byte;
      high_byte = s.high_byte;
      count_byte = s.count_byte;
    };
    phase =
        reading (record { offset = omega (arith, z); even = omega (arith, z); offers = refl }) refl
          wr (inr im);
  })
  read_started ata r s wr z im (fails a v q) = rw q v

  read_sectors-IsValid :
      (ata : AtaDevice)
      → IsSound ata
      → IsIdle ata
      → ata.transfer_offset ≡ 0
      → IsValid (read_sectors host ata)
  unfolding read_sectors set_range
  read_sectors-IsValid ata s i z =
      let ranged = set_range ata in
      elim (Bool-cases (past_end ranged)) [
        | inl e ↦ simp e (set_error-IsValid ranged ata_error_idnf s)
        | inr e ↦ simp e (
            read_started ranged (ata_load_sector host ranged ranged.transfer_lba) s i.no_write z
              (range-Remaining ata s e) (load_sector-Loads host ranged ranged.transfer_lba s))
      ]

  -- A flush changes neither the task file nor the transfer.
  flush-IsSound :
      (ata : AtaDevice)
      → IsSound ata
      → IsIdle ata
      → IsSound (ata_flush host ata).0 × IsIdle (ata_flush host ata).0
  unfolding ata_flush ata_host_error
  flush-IsSound ata s i = elim (Bool-cases (not (is_some ata.image) || not ata.dirty)) [
    | inl e ↦ simp e (s, i)
    | inr e ↦ elim (Bool-cases (host.flush_fails || host.sync_fails)) [
      | inl f ↦ simp (e, f) (s, i)
      | inr f ↦ simp (e, f) (s, i)
    ]
  ]

  finish_flush-IsValid :
      (r : AtaDevice × Bool) → IsSound r.0 → IsIdle r.0 → IsValid (finish_flush host r)
  unfolding finish_flush
  finish_flush-IsValid (ata, true) s i = ready-IsValid ata s i
  finish_flush-IsValid (ata, false) s i = set_error-IsValid ata ata_error_unc s

  flush_cache-IsValid :
      (ata : AtaDevice) → IsSound ata → IsIdle ata → IsValid (flush_cache host ata)
  unfolding flush_cache
  flush_cache-IsValid ata s i =
      let (sound, idle_still) = flush-IsSound ata s i in
      finish_flush-IsValid (ata_flush host ata) sound idle_still

  -- Every command, known or not, leaves a valid state, whatever transfer it interrupts.
  pub execute-IsValid :
      (ata : AtaDevice) (command : ℕ) → IsValid ata → IsValid (ata_execute host ata command)
  unfolding ata_execute begin_command
  execute-IsValid ata command v =
      let s = v.sound in
      let i = begun-IsIdle ata command in
      let begun = begin_command ata command in
      switch-All IsValid command (commands host begun) (ata_set_error begun ata_error_abrt)
        (
          (λ e. ready-IsValid begun s i),
          (
            (λ e. read_sectors-IsValid begun s i refl),
            (
              (λ e. write_sectors-IsValid begun s i refl),
              (
                (λ e. flush_cache-IsValid begun s i),
                (
                  (λ e.
                      ready-IsValid (ata_signature begun) (signature-IsSound begun s)
                        (signature-IsIdle begun i)),
                  (
                    (λ e. identify-IsValid begun s (ground arith) refl),
                    (
                      (λ e. set_features-IsValid begun s i),
                      ((λ e. native_max-IsValid begun s i), tt),
                    ),
                  ),
                ),
              ),
            ),
          ),
        )
        (set_error-IsValid begun ata_error_abrt s)

  -- A byte written to the task file, or a command.
  pub write_register-IsValid :
      (ata : AtaDevice) (reg value : ℕ)
      → value < 256
      → IsValid ata
      → IsValid (ata_write_register host ata reg value)
  unfolding ata_write_register
  write_register-IsValid ata reg value h v = elim (Bool-cases (is_some ata.image)) [
    | inr e ↦ simp e v
    | inl e ↦ simp e (
        switch-All IsValid (bit_and reg 0x0f) (registers host ata value) ata
          (
            (λ t. record { sound = v.sound; phase = v.phase }),
            (
              (λ t. record {
                sound =
                    task-IsSound ata ata.lba_low ata.lba_mid ata.lba_high value v.sound
                      v.sound.low_byte v.sound.mid_byte v.sound.high_byte h;
                phase = v.phase;
              }),
              (
                (λ t. record {
                  sound =
                      task-IsSound ata value ata.lba_mid ata.lba_high ata.sector_count v.sound h
                        v.sound.mid_byte v.sound.high_byte v.sound.count_byte;
                  phase = v.phase;
                }),
                (
                  (λ t. record {
                    sound =
                        task-IsSound ata ata.lba_low value ata.lba_high ata.sector_count v.sound
                          v.sound.low_byte h v.sound.high_byte v.sound.count_byte;
                    phase = v.phase;
                  }),
                  (
                    (λ t. record {
                      sound =
                          task-IsSound ata ata.lba_low ata.lba_mid value ata.sector_count v.sound
                            v.sound.low_byte v.sound.mid_byte h v.sound.count_byte;
                      phase = v.phase;
                    }),
                    (
                      (λ t. record { sound = v.sound; phase = v.phase }),
                      ((λ t. execute-IsValid ata value v), tt),
                    ),
                  ),
                ),
              ),
            ),
          )
          v)
  ]
