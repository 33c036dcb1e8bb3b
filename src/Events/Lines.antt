-- ===== src/Events/Lines.antt =====
-- The events that the collector's lines are read as.
pub mod Printf
use telemetryd.Base.{
  ℕ, ◌<◌, ◌^◌, ℤ, pos, negsuc, bits, is_zero, ◌≡◌, ◌≢◌, refl, ap, Bool, true, false, ◌&&◌, not,
  none, some, List, Text, codes, subst, is_space, arith, ◌⊎◌, inl, inr, Option-cases, ◌↔◌,
}
use telemetryd.NvmeConst.{decode_status}
use telemetryd.NvmeConst.Status.{decode_status_bounds}
use telemetryd.Models.Events.{ErrorEventDetail, NvmeEvent}
use telemetryd.Events.Pattern.{match_line, group, render, Fits}
use telemetryd.Events.Errors.{
  error_items, error_fields, is_lba_opcode, error_detail, error_event, parse_error_line, error_kind,
}
use telemetryd.Events.Timeouts.{timeout_items, timeout_fields, timeout_event, parse_timeout_line}
use telemetryd.Events.Printed.{LastNatural, match_line-render}

space_E : is_space b'E' ≡ false
unfolding is_space
space_E = refl

space_T : is_space b'T' ≡ false
unfolding is_space
space_T = refl

-- A text of the items of an error's line.
pub parse_error_line-render :
    (now : ℕ) (values : List ℤ)
    → Fits error_items values
    → parse_error_line now (render error_items values) ≡ some (error_event now values)
unfolding parse_error_line LastNatural
parse_error_line-render now values f =
    let found : match_line error_items (render error_items values) ≡ some values =
      match_line-render b'E' (codes "RROR_EVENT ts_ns=") error_fields values space_E tt
        (
          refl,
          (
            refl,
            (
              refl,
              (
                refl,
                (
                  refl,
                  (
                    refl,
                    (
                      refl,
                      (
                        refl,
                        (
                          refl,
                          (refl, (refl, (refl, (refl, (refl, (refl, (refl, (refl, (tt, tt))))))))),
                        ),
                      ),
                    ),
                  ),
                ),
              ),
            ),
          ),
        )
        f in
    ap (λ o. elim o [ none ↦ none | some m ↦ some (error_event now m) ]) found

-- A timeout's line that the collector prints, from any numbers that its fields can have, is read as
-- the event of exactly these numbers.
pub parse_timeout_line-render :
    (one_decimal : ℕ → ℕ → Text) (now : ℕ) (values : List ℤ)
    → Fits timeout_items values
    → parse_timeout_line one_decimal now (render timeout_items values)
      ≡ some (timeout_event one_decimal now values)
unfolding parse_timeout_line LastNatural
parse_timeout_line-render one_decimal now values f =
    let found : match_line timeout_items (render timeout_items values) ≡ some values =
      match_line-render b'T' (codes "IMEOUT_EVENT ts_ns=") timeout_fields values space_T tt
        (
          refl,
          (
            refl,
            (
              refl,
              (
                refl,
                (refl, (refl, (refl, (refl, (refl, (refl, (refl, (refl, (refl, (tt, tt)))))))))),
              ),
            ),
          ),
        )
        f in
    ap (λ o. elim o [ none ↦ none | some m ↦ some (timeout_event one_decimal now m) ]) found

-- What an error event says is within the widths of the device's fields, its status fields are
-- those of its status, and a block address is shown only of a read or write on an I/O queue whose
-- submission was seen.
pub record IsErrorEvent (e : NvmeEvent) (d : ErrorEventDetail) : Type 0 where
  pub kind : e.kind ≡ error_kind
  pub slot : e.error ≡ some d
  pub no_timeout : e.timeout ≡ none
  pub opcode_bound : d.opcode < 2 ^ 8
  pub nsid_bound : d.nsid < 2 ^ 32
  pub decoded :
      (d.sc ≡ (decode_status d.status).sc)
      × (d.sct ≡ (decode_status d.status).sct)
      × (d.crd ≡ (decode_status d.status).crd)
      × (d.more ≡ (decode_status d.status).more)
      × (d.dnr ≡ (decode_status d.status).dnr)
  pub status_bounds : (d.sc < 256) × (d.sct < 8) × (d.crd < 4)
  pub lba_iff :
      (d.lba_valid ≡ true)
      ↔ ((d.submit_cached ≡ true) × (e.qid ≢ pos 0) × ((d.opcode ≡ 0x01) ⊎ (d.opcode ≡ 0x02)))

byte_bound : (z : ℤ) → bits z 0 8 < 2 ^ 8
byte_bound (pos n) = omega arith
byte_bound (negsuc n) = omega arith

word_bound : (z : ℤ) → bits z 0 32 < 2 ^ 32
word_bound (pos n) = omega arith
word_bound (negsuc n) = omega arith

lba_shown :
    (cached : Bool) (qid : ℤ) (opcode : ℕ)
    → (cached && not (is_zero qid) && is_lba_opcode opcode ≡ true)
      ↔ ((cached ≡ true) × (qid ≢ pos 0) × ((opcode ≡ 0x01) ⊎ (opcode ≡ 0x02)))
lba_shown cached (pos n) opcode = ground arith
lba_shown cached (negsuc n) opcode = ground arith

error_event-IsErrorEvent :
    (now : ℕ) (m : List ℤ) → IsErrorEvent (error_event now m) (error_detail m)
unfolding error_event error_detail
error_event-IsErrorEvent now m = record {
  kind = refl;
  slot = refl;
  no_timeout = refl;
  opcode_bound = byte_bound (group m 5);
  nsid_bound = word_bound (group m 6);
  decoded = (refl, refl, refl, refl, refl);
  status_bounds = decode_status_bounds (group m 7);
  lba_iff = lba_shown (not (is_zero (group m 16))) (group m 2) (bits (group m 5) 0 8);
}

-- Every event that a line is read as, whatever the line, is an error event of this kind.
pub parse_error_line-IsErrorEvent :
    (now : ℕ) (line : Text) (e : NvmeEvent)
    → parse_error_line now line ≡ some e
    → (d : ErrorEventDetail) × IsErrorEvent e d
unfolding parse_error_line
parse_error_line-IsErrorEvent now line e h = elim (Option-cases (match_line error_items line)) [
  | inl no_match ↦ absurd (ground (arith, no_match))
  | inr (m, found) ↦
      let same : error_event now m ≡ e = ground (arith, found, h) in
      subst (λ v. (d : ErrorEventDetail) × IsErrorEvent v d) same
        (error_detail m, error_event-IsErrorEvent now m)
]
