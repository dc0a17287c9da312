-- ===== src/Scte35/Command.antt =====
-- Commands are read back from their syntax.
use vinyl.Common.{
  ℕ, ◌^◌, ◌<◌, ◌≡◌, inl, inr, ◌⊎◌, sym, subst, ap, Bool, true, false, Option, none, some, [], arith,
  ◌==◌, if◌then◌else◌,
}
use vinyl.BitReader.{return}
use vinyl.BitReader.Fields.{
  Reads, Reads-return, Reads-bind, Reads-then, Reads-then_return, Reads-map, Reads-value,
  Reads-field, Reads-skip, Reads-flag,
}
use vinyl.SpliceInfo.{
  BreakDuration, SpliceInsert, SpliceCommand, splice_null, splice_insert, time_signal,
  unknown_command,
}
use vinyl.Scte35.{
  when, read_splice_time, read_break_duration, read_insert_time, read_insert_fields,
  read_splice_insert, read_command, cancelled_insert,
}
use vinyl.Scte35.Syntax.{
  time_bits, FitsTime, duration_bits, FitsDuration, is_given, insert_time_bits, insert_field_bits,
  cancel_bits, insert_bits, NoTime, FitsInsertFields, FitsInsert, command_type, command_bits,
  FitsCommand,
}

read_splice_time-Reads : (t : Option ℕ) → FitsTime t → Reads read_splice_time (time_bits t) t
unfolding read_splice_time
read_splice_time-Reads none h =
    Reads-bind _ (Reads-flag false) (Reads-then_return none (Reads-skip 7 127))
read_splice_time-Reads (some t) h =
    Reads-bind _ (Reads-flag true) (Reads-then (Reads-skip 6 63) (Reads-map _ (Reads-field 33 t h)))

read_break_duration-Reads :
    (d : BreakDuration) → d.duration < 2 ^ 33 → Reads read_break_duration (duration_bits (some d)) d
unfolding read_break_duration
read_break_duration-Reads d h =
    Reads-bind _ (Reads-flag d.auto_return)
      (Reads-then (Reads-skip 6 63) (Reads-map _ (Reads-field 33 d.duration h)))

when-Reads :
    (d : Option BreakDuration)
    → FitsDuration d
    → Reads (when (is_given d) read_break_duration) (duration_bits d) d
when-Reads none h = Reads-return none
when-Reads (some d) h = Reads-map _ (read_break_duration-Reads d h)

read_insert_time-Reads :
    (immediate : Bool) (t : Option ℕ)
    → NoTime immediate t
    → Reads (read_insert_time true immediate) (insert_time_bits immediate t) t
unfolding read_insert_time
read_insert_time-Reads true t h = subst (λ x. Reads (return none) [] x) (sym h) (Reads-return none)
read_insert_time-Reads false t h = read_splice_time-Reads t h

read_insert_fields-Reads :
    (s : SpliceInsert)
    → s.cancel ≡ false
    → FitsInsertFields s
    → Reads (read_insert_fields s.splice_event_id) (insert_field_bits s) s
unfolding read_insert_fields
read_insert_fields-Reads s e h = Reads-bind _ (Reads-flag s.out_of_network) (
    Reads-bind _ (Reads-flag true) (
      Reads-bind _ (Reads-flag (is_given s.break_duration)) (
        Reads-bind _ (Reads-flag s.splice_immediate) (
          Reads-then (Reads-skip 4 15) (
            Reads-bind _ (read_insert_time-Reads s.splice_immediate s.splice_time h.0) (
              Reads-bind _ (when-Reads s.break_duration h.1) (
                Reads-bind _ (Reads-field 16 s.unique_program_id h.2) (
                  Reads-bind _ (Reads-field 8 s.avail_num h.3) (
                    Reads-value (ap (λ c. record s { cancel = c }) (sym e))
                      (Reads-map _ (Reads-field 8 s.avails_expected h.4)))))))))))

read_splice_insert-Reads :
    (s : SpliceInsert) → FitsInsert s → Reads read_splice_insert (insert_bits s) s
unfolding read_splice_insert
read_splice_insert-Reads s h =
    Reads-bind _ (Reads-field 32 s.splice_event_id h.0)
      (Reads-bind _ (Reads-flag s.cancel) (Reads-then (Reads-skip 7 127) (rest s h.1)))
  where
    rest :
        (s : SpliceInsert)
        → ((s.cancel ≡ true) × (s ≡ cancelled_insert s.splice_event_id))
          ⊎ ((s.cancel ≡ false) × FitsInsertFields s)
        → Reads
            (if s.cancel
              then return (cancelled_insert s.splice_event_id)
              else read_insert_fields s.splice_event_id)
            (cancel_bits s.cancel (insert_field_bits s))
            s
    rest s (inl (e, f)) =
        subst
          (λ c.
            Reads
              (if c
                then return (cancelled_insert s.splice_event_id)
                else read_insert_fields s.splice_event_id)
              (cancel_bits c (insert_field_bits s)) s)
          (sym e) (Reads-value (sym f) (Reads-return (cancelled_insert s.splice_event_id)))
    rest s (inr (e, f)) =
        subst
          (λ c.
            Reads
              (if c
                then return (cancelled_insert s.splice_event_id)
                else read_insert_fields s.splice_event_id)
              (cancel_bits c (insert_field_bits s)) s)
          (sym e) (read_insert_fields-Reads s e f)

-- Every command is read back from its bits.
pub read_command-Reads :
    (c : SpliceCommand) → FitsCommand c → Reads (read_command (command_type c)) (command_bits c) c
unfolding read_command
read_command-Reads splice_null h = Reads-return splice_null
read_command-Reads (splice_insert s) h = Reads-map _ (read_splice_insert-Reads s h)
read_command-Reads (time_signal t) h = Reads-map _ (read_splice_time-Reads t h)
read_command-Reads (unknown_command c) (b, n0, n5, n6) =
    let z0 : (c == 0x00) ≡ false = ground arith in
    let z5 : (c == 0x05) ≡ false = ground arith in
    let z6 : (c == 0x06) ≡ false = ground arith in
    rw (z0, z5, z6) (Reads-return (unknown_command c))
