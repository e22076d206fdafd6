-- ===== src/Connection/Loss.antt =====
-- What bridge/openrct2-plugin/src/connection.ts loses when a connection fails.
use helter_skelter.Prelude.{
  ℕ, ◌≡◌, ◌≢◌, refl, sym, ap, ◌∙◌, true, false, length, Text, Option, none, some, List, [], ◌∷◌,
  ◌++◌, append_assoc, All-append,
}
use helter_skelter.Json.Lines.{OneLine}
use helter_skelter.Connection.{
  BridgeConnection, received, Moment, Network, write_line, write, flush_lines, on_connect, on_close,
  receive, schedule_reconnect,
}
use helter_skelter.Connection.Framing.{
  Drained, threw, is_blank, handle_line, settle, drain, on_data,
}
use helter_skelter.Connection.Framing.Lines.{split_lines, split_lines-unlines}
use helter_skelter.Connection.Framing.Loop.{drain-line, outcomes_of, on_data_lem}

write_line-refused :
    (net : Network) (so : Option ℕ) (line : Text)
    → ((s : ℕ) (l : Text) → net.accepts s l ≡ false)
    → write_line net so line ≡ []
unfolding write_line
write_line-refused net none line h = refl
write_line-refused net (some s) line h = rw (h s line) refl

flush_lines-refused :
    (net : Network) (so : Option ℕ) (lines : List Text)
    → ((s : ℕ) (l : Text) → net.accepts s l ≡ false)
    → flush_lines net so lines ≡ []
unfolding flush_lines
flush_lines-refused net so [] h = refl
flush_lines-refused net so (line ∷ lines) h =
    rw (write_line-refused net so line h) (flush_lines-refused net so lines h)

-- If every write of a connection that opens throws, then nothing is written and the buffer is emptied
-- all the same: the snapshots that were held back are lost.
pub on_connect-loses :
    (net : Network) (t : Moment) (version : Text) (c : BridgeConnection)
    → ((s : ℕ) (l : Text) → net.accepts s l ≡ false)
    → ((on_connect net t version c).1 ≡ []) × ((on_connect net t version c).0.snapshot_buffer ≡ [])
unfolding on_connect write
on_connect-loses net t version c h = (
  rw (write_line-refused net c.socket _ h) (flush_lines-refused net c.socket c.snapshot_buffer h),
  refl,
)

on_data-fragment :
    (f : Text)
    → OneLine f
    → on_data [] f ≡ record { outcomes = []; inbound_buffer = f; thrown = false }
unfolding outcomes_of
on_data-fragment f h =
    let split : split_lines f ≡ ([], f) = split_lines-unlines [] f tt h in
    on_data_lem [] f (rw split tt) ∙ rw split refl

on_data-completed :
    (f l : Text)
    → OneLine f
    → OneLine l
    → is_blank (f ++ l) ≡ false
    → handle_line (f ++ l) ≢ threw
    → on_data f (l ++ (10 ∷ []))
      ≡ record { outcomes = handle_line (f ++ l) ∷ []; inbound_buffer = []; thrown = false }
unfolding outcomes_of
on_data-completed f l hf hl written fine =
    let whole = All-append (λ u. u ≢ 10) f l hf hl in
    let split : split_lines (f ++ (l ++ (10 ∷ []))) ≡ ((f ++ l) ∷ [], []) =
      ap split_lines (sym (append_assoc f l (10 ∷ [])))
      ∙ split_lines-unlines ((f ++ l) ∷ []) [] (whole, tt) tt in
    on_data_lem f (l ++ (10 ∷ [])) (rw split (fine, tt)) ∙ rw split (rw written refl)

-- If a connection with an empty inbound buffer receives a fragment without a newline and is then closed,
-- the first line that is received afterwards is handled with the fragment put before it, where the two
-- together are not blank and do not throw.
pub receive-stale :
    (c : BridgeConnection) (f l : Text)
    → c.inbound_buffer ≡ []
    → OneLine f
    → OneLine l
    → is_blank (f ++ l) ≡ false
    → handle_line (f ++ l) ≢ threw
    → (receive (l ++ (10 ∷ [])) (on_close (receive f c).0).0).1
      ≡ received (handle_line (f ++ l) ∷ []) ∷ []
unfolding receive on_close schedule_reconnect
receive-stale c f l empty hf hl written fine =
    let kept : (on_data c.inbound_buffer f).inbound_buffer ≡ f =
      ap (λ b. (on_data b f).inbound_buffer) empty
      ∙ ap (λ d. d.inbound_buffer) (on_data-fragment f hf) in
    ap (λ b. received (on_data b (l ++ (10 ∷ []))).outcomes ∷ []) kept
    ∙ ap (λ d. received d.outcomes ∷ []) (on_data-completed f l hf hl written fine)

settle-thrown :
    (l rest : Text) (later : Drained)
    → is_blank l ≡ false
    → handle_line l ≡ threw
    → settle l rest later ≡ record { outcomes = threw ∷ []; inbound_buffer = rest; thrown = true }
unfolding settle
settle-thrown l rest later written thrown = rw (written, settle) (rw (thrown, settle) refl)

-- If from an empty buffer the handling of the first line, which is not blank, throws, then the data event
-- leaves all that stands behind this line in the buffer, unhandled, the complete lines included.
pub on_data-stops :
    (l rest : Text)
    → OneLine l
    → is_blank l ≡ false
    → handle_line l ≡ threw
    → on_data [] (l ++ (10 ∷ rest))
      ≡ record { outcomes = threw ∷ []; inbound_buffer = rest; thrown = true }
unfolding on_data
on_data-stops l rest h written thrown =
    let n = length (l ++ (10 ∷ rest)) in
    drain-line n l rest h ∙ settle-thrown l rest (drain n rest) written thrown
