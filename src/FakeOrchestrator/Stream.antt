-- ===== src/FakeOrchestrator/Stream.antt =====
-- What scripts/dev/fake-orchestrator.js prints of a whole stream, however it is cut.
use mathlib.Core.Path.{ap₂}
use helter_skelter.Json.Stringify.{stringify}
use helter_skelter.Prelude.{
  ℕ, suc, ◌+◌, ◌-◌, ◌≤◌, ◌<◌, ◌≡◌, refl, sym, ap, ◌∙◌, true, false, Bool-cases, inl, inr, Text,
  Option, none, some, List, [], ◌∷◌, ◌++◌, append_assoc, append-nil, map, take, length, take-append,
  take-append_long, take_all, length-append, arith,
}
use helter_skelter.Json.Lines.{OneLine}
use helter_skelter.Json.RoundTrip.{parse-stringify}
use helter_skelter.Protocol.{Envelope}
use helter_skelter.Protocol.Write.{envelope_json}
use helter_skelter.Protocol.Codec.{encode_envelope}
use helter_skelter.Connection.Framing.Lines.{split_lines, split_lines-AreLines, split_lines-unlines}
use helter_skelter.Connection.Framing.Chunks.{concat, split_lines-append}
use helter_skelter.Connection.Framing.Messages.{stream, split_lines-stream}
use helter_skelter.FakeOrchestrator.{
  Report, message, report, report_of, Collected, on_chunk, collect, read_chunks,
}
use helter_skelter.FakeOrchestrator.Prints.{
  written, numbered, allowed, is_enough, Prints, nothing-Prints, on_chunk-Prints,
}

written-append : (ls ms : List Text) → written (ls ++ ms) ≡ written ls ++ written ms
written-append [] ms = refl
written-append ([] ∷ ls) ms = written-append ls ms
written-append ((c ∷ l) ∷ ls) ms = ap (λ us. (c ∷ l) ∷ us) (written-append ls ms)

numbered-append :
    (count : ℕ) (ls ms : List Text)
    → numbered count (ls ++ ms) ≡ numbered count ls ++ numbered (count + length ls) ms
numbered-append count [] ms = ap (λ n. numbered n ms) (omega arith)
numbered-append count (l ∷ ls) ms =
    ap (λ rs. report (count + 1) l ∷ rs)
      (numbered-append (count + 1) ls ms
        ∙ ap (λ n. numbered (count + 1) ls ++ numbered n ms) (omega arith))

-- The limit is reached within the first lines.
enough-append :
    (limit : Option ℕ) (count : ℕ) (ls ms : List Text)
    → is_enough limit count ls ≡ true
    → (allowed limit count (ls ++ ms) ≡ allowed limit count ls)
      × (is_enough limit count (ls ++ ms) ≡ true)
enough-append none count ls ms h = cc
enough-append (some most) count ls ms h =
    let few : suc (most - suc count) ≤ length ls = ground arith in
    (take-append (suc (most - suc count)) ls ms few, ground (arith, length-append ls ms))

more-append :
    (limit : Option ℕ) (count : ℕ) (ls ms : List Text)
    → is_enough limit count ls ≡ false
    → (allowed limit count ls ≡ ls)
      × (allowed limit count (ls ++ ms) ≡ ls ++ allowed limit (count + length ls) ms)
      × (is_enough limit count (ls ++ ms) ≡ is_enough limit (count + length ls) ms)
more-append none count ls ms h = (refl, refl, refl)
more-append (some most) count ls ms h =
    let many : length ls < suc (most - suc count) = ground arith in
    let left : suc (most - suc count) - length ls ≡ suc (most - suc (count + length ls)) =
      omega arith in
    (
      take_all (suc (most - suc count)) ls (omega arith),
      take-append_long (suc (most - suc count)) ls ms (omega arith)
          ∙ ap (λ n. ls ++ take n ms) left,
      ground (arith, length-append ls ms, left),
    )

done-Prints :
    (limit : Option ℕ) (count : ℕ) (ls ms : List Text) (tail tail' : Text) (c : Collected)
    → c.exited ≡ true
    → Prints limit count ls tail c
    → Prints limit count (ls ++ ms) tail' c
done-Prints limit count ls ms tail tail' c stop v =
    let (a, b) = enough-append limit count ls ms (sym v.exited ∙ stop) in
    record {
      reports = v.reports ∙ ap (numbered count) (sym a);
      message_count = v.message_count ∙ ap (λ (us : List Text). count + length us) (sym a);
      exited = stop ∙ sym b;
      buffer = λ e. cc;
    }

later-Prints :
    (limit : Option ℕ) (count : ℕ) (ls ms : List Text) (tail tail' : Text) (c d : Collected)
    → c.exited ≡ false
    → Prints limit count ls tail c
    → Prints limit (count + length ls) ms tail' d
    → Prints limit count (ls ++ ms) tail' (record d { reports = c.reports ++ d.reports })
later-Prints limit count ls ms tail tail' c d go v w =
    let (all, more, same) = more-append limit count ls ms (sym v.exited ∙ go) in
    let rest = allowed limit (count + length ls) ms in
    record {
      reports =
          ap (λ rs. rs ++ d.reports) (v.reports ∙ ap (numbered count) all)
          ∙ ap (λ rs. numbered count ls ++ rs) w.reports
          ∙ sym (numbered-append count ls rest)
          ∙ ap (numbered count) (sym more);
      message_count =
          omega (
            arith,
            w.message_count,
            length-append ls rest,
            ap (λ (us : List Text). length us) more,
          );
      exited = w.exited ∙ sym same;
      buffer = w.buffer;
    }

read_chunks-stop :
    (limit : Option ℕ) (buffer : Text) (count : ℕ) (chunk : Text) (chunks : List Text)
    → (on_chunk limit buffer chunk count).exited ≡ true
    → read_chunks limit buffer count (chunk ∷ chunks) ≡ on_chunk limit buffer chunk count
unfolding read_chunks on_chunk collect
read_chunks-stop limit buffer count chunk chunks stop = rw (stop, read_chunks) refl

read_chunks-go :
    (limit : Option ℕ) (buffer : Text) (count : ℕ) (chunk : Text) (chunks : List Text) (b : Text)
    (n : ℕ)
    → let c = on_chunk limit buffer chunk count in
      c.exited ≡ false
      → c.buffer ≡ b
      → c.message_count ≡ n
      → read_chunks limit buffer count (chunk ∷ chunks) ≡ record (read_chunks limit b n chunks) {
        reports = c.reports ++ (read_chunks limit b n chunks).reports;
      }
unfolding read_chunks
read_chunks-go limit buffer count chunk chunks b n go same_b same_n =
    let c = on_chunk limit buffer chunk count in
    rw (go, read_chunks)
      (ap₂
        (λ (b : Text) (n : ℕ). record (read_chunks limit b n chunks) {
          reports = c.reports ++ (read_chunks limit b n chunks).reports;
        })
        same_b same_n)

-- However the text that arrives is cut into chunks: of the lines of the buffer and the chunks that are
-- not empty, the stand-in prints a report each, numbered on from the count, up to the limit and at least
-- one; it has ended exactly if there were that many; and otherwise what stands behind the last newline is
-- left in the buffer.
read_chunks-Prints :
    (chunks : List Text) (limit : Option ℕ) (buffer : Text) (count : ℕ)
    → OneLine buffer
    → let (ls, tail) = split_lines (buffer ++ concat chunks) in
      Prints limit count (written ls) tail (read_chunks limit buffer count chunks)
unfolding read_chunks
read_chunks-Prints [] limit buffer count h =
    let cut : split_lines (buffer ++ []) ≡ ([], buffer) =
      ap split_lines (append-nil buffer) ∙ split_lines-unlines [] buffer tt h in
    rw cut (nothing-Prints limit count buffer)
read_chunks-Prints (chunk ∷ chunks) limit buffer count h =
    let more = concat chunks in
    let s = buffer ++ chunk in
    let (e, hs, t) = split_lines-AreLines s in
    let (ls, tail) = split_lines s in
    let (ms, rest) = split_lines (tail ++ more) in
    let whole : split_lines (buffer ++ (chunk ++ more)) ≡ (ls ++ ms, rest) =
      ap split_lines (sym (append_assoc buffer chunk more)) ∙ split_lines-append s more in
    let c = on_chunk limit buffer chunk count in
    let v = on_chunk-Prints limit buffer chunk count in
    rw whole (
      rw (written-append ls ms) (elim (Bool-cases c.exited) [
        | inl stop ↦
            rw (read_chunks-stop limit buffer count chunk chunks stop)
              (done-Prints limit count (written ls) (written ms) tail rest c stop v)
        | inr go ↦
            let n = count + length (written ls) in
            let (all, _, _) = more-append limit count (written ls) [] (sym v.exited ∙ go) in
            let counted : c.message_count ≡ n =
              v.message_count ∙ ap (λ (us : List Text). count + length us) all in
            rw (read_chunks-go limit buffer count chunk chunks tail n go (v.buffer go) counted) (
              later-Prints limit count (written ls) (written ms) tail rest c
                (read_chunks limit tail n chunks) go v (read_chunks-Prints chunks limit tail n t))
      ]))

-- The reports of messages, numbered from the count on.
abbrev pub messages : ℕ → List Envelope → List Report
messages count [] = []
messages count (e ∷ es) = message (count + 1) (envelope_json e) ∷ messages (count + 1) es

report-encode_envelope :
    (n : ℕ) (e : Envelope) → report n (encode_envelope e) ≡ message n (envelope_json e)
unfolding report encode_envelope report_of envelope_json
report-encode_envelope n e = rw (parse-stringify (envelope_json e), report) refl

numbered-messages :
    (es : List Envelope) (count : ℕ) → numbered count (map encode_envelope es) ≡ messages count es
numbered-messages [] count = refl
numbered-messages (e ∷ es) count =
    ap₂ (λ r rs. r ∷ rs) (report-encode_envelope (count + 1) e) (numbered-messages es (count + 1))

written-messages : (es : List Envelope) → written (map encode_envelope es) ≡ map encode_envelope es
unfolding encode_envelope envelope_json stringify
written-messages [] = refl
written-messages (e ∷ es) = ap (λ ls. encode_envelope e ∷ ls) (written-messages es)

-- If the chunks of a connection make up a stream of encoded messages, then without a limit the stand-in
-- prints every message as the very object that was encoded, in order and numbered from one, does not end,
-- and has nothing left in its buffer.
pub read_chunks-stream :
    (es : List Envelope) (chunks : List Text)
    → concat chunks ≡ stream es
    → let c = read_chunks none [] 0 chunks in
      (c.reports ≡ messages 0 es) × (c.exited ≡ false) × (c.buffer ≡ [])
read_chunks-stream es chunks h =
    let cut : split_lines (concat chunks) ≡ (map encode_envelope es, []) =
      ap split_lines h ∙ split_lines-stream es in
    let v : Prints none 0 (written (map encode_envelope es)) [] (read_chunks none [] 0 chunks) =
      rw cut at (read_chunks-Prints chunks none [] 0 tt) in
    (
      v.reports ∙ ap (numbered 0) (written-messages es) ∙ numbered-messages es 0,
      v.exited,
      v.buffer v.exited,
    )
