-- ===== src/Connection/Delivery.antt =====
-- Snapshots taken while bridge/openrct2-plugin/src/connection.ts is offline, and what is written when the
-- connection opens.
use mathlib.Core.Path.{ap₂}
use helter_skelter.Prelude.{
  ℕ, ◌≡◌, refl, sym, ap, ◌∙◌, true, false, Text, codes, some, List, [], ◌∷◌, ◌++◌, append_assoc,
  append-nil, map, last_of, last_of-append, last_of-nil,
}
use helter_skelter.Protocol.{bridge, hello, observation_snapshot, ObservationSnapshot, Envelope}
use helter_skelter.Protocol.Codec.{encode_envelope}
use helter_skelter.Connection.{
  BridgeConfig, BridgeConnection, Effect, connecting, written, Moment, make_envelope, Network, new,
  connect, write_line, write, flush_lines, on_connect, send_snapshot,
}
use helter_skelter.Connection.Bounds.{shift_to_lem}
use helter_skelter.Connection.Events.{Event, timer, opened, tick_snapshot, step, run}

abbrev pub Taken : Type 0
Taken = Moment × ObservationSnapshot

abbrev pub snapshot_events : Network → List Taken → List Event
snapshot_events net = map (λ (t, s). tick_snapshot net t s)

abbrev pub snapshot_line : Text → Taken → Text
snapshot_line id (t, s) = encode_envelope (make_envelope t id (observation_snapshot s))

abbrev pub hello_line : Moment → Text → Text → Text
hello_line t id version = encode_envelope (
    make_envelope t id (
      hello (record { role = bridge; bridge_version = codes "0.1.0"; openrct2_version = version })))

abbrev pub sent : ℕ → List Text → List Effect
sent s = map (λ l. written s (l ++ (10 ∷ [])))

abbrev pub holding : BridgeConnection → List Text → BridgeConnection
holding c lines = record c { snapshot_buffer = last_of c.config.max_buffered_snapshots lines }

pub send_snapshot-offline :
    (net : Network) (x : Taken) (c : BridgeConnection) (zs : List Text)
    → c.connected ≡ false
    → send_snapshot net x.0 x.1 (holding c zs)
      ≡ (holding c (zs ++ (snapshot_line c.simulation_id x ∷ [])), [])
unfolding send_snapshot encode_envelope
send_snapshot-offline net (t, x) c zs h =
    let most = c.config.max_buffered_snapshots in
    let line = snapshot_line c.simulation_id (t, x) in
    rw (h, send_snapshot)
      (ap (λ b. (record c { connected = false; snapshot_buffer = b }, []))
        (shift_to_lem most (last_of most zs ++ (line ∷ [])) ∙ last_of-append most zs (line ∷ [])))

run-offline :
    (net : Network) (xs : List Taken) (c : BridgeConnection) (zs : List Text)
    → c.connected ≡ false
    → run (snapshot_events net xs) (holding c zs)
      ≡ (holding c (zs ++ map (snapshot_line c.simulation_id) xs), [])
unfolding run step
run-offline net [] c zs h = rw (append-nil zs) refl
run-offline net (x ∷ xs) c zs h =
    let line = snapshot_line c.simulation_id x in
    let rest = snapshot_events net xs in
    ap (λ d. ((run rest d.0).0, d.1 ++ (run rest d.0).1)) (send_snapshot-offline net x c zs h)
    ∙ run-offline net xs c (zs ++ (line ∷ [])) h
    ∙ ap (λ b. (holding c b, []))
        (append_assoc zs (line ∷ []) (map (snapshot_line c.simulation_id) xs))

run-append :
    (es fs : List Event) (c : BridgeConnection)
    → run (es ++ fs) c ≡ ((run fs (run es c).0).0, (run es c).1 ++ (run fs (run es c).0).1)
unfolding run
run-append [] fs c = refl
run-append (e ∷ es) fs c =
    let d = step e c in
    ap (λ r. (r.0, d.1 ++ r.1)) (run-append es fs d.0)
    ∙ ap (λ w. ((run fs (run es d.0).0).0, w))
        (sym (append_assoc d.1 (run es d.0).1 (run fs (run es d.0).0).1))

flush_lines-sent :
    (net : Network) (s : ℕ) (lines : List Text)
    → ((line : Text) → net.accepts s line ≡ true)
    → flush_lines net (some s) lines ≡ sent s lines
unfolding flush_lines write_line
flush_lines-sent net s [] fine = refl
flush_lines-sent net s (line ∷ lines) fine =
    rw (fine line) (ap (λ w. written s (line ++ (10 ∷ [])) ∷ w) (flush_lines-sent net s lines fine))

pub connect-created :
    (net : Network) (s : ℕ) (c : BridgeConnection)
    → net.created ≡ some s
    → net.set_up ≡ true
    → connect net c ≡ (record c { socket = some s }, connecting s ∷ [])
unfolding connect
connect-created net s c made up = rw (made, connect) (rw (up, connect) refl)

write-sent :
    (net : Network) (s : ℕ) (c : BridgeConnection) (e : Envelope)
    → c.socket ≡ some s
    → ((line : Text) → net.accepts s line ≡ true)
    → write net c e ≡ sent s (encode_envelope e ∷ [])
unfolding write write_line encode_envelope
write-sent net s c e made fine =
    rw (made, write_line) (rw (fine (encode_envelope e), write_line) refl)

on_connect-sent :
    (net : Network) (s : ℕ) (t : Moment) (version : Text) (c : BridgeConnection)
    → c.socket ≡ some s
    → ((line : Text) → net.accepts s line ≡ true)
    → (on_connect net t version c).1
      ≡ sent s (hello_line t c.simulation_id version ∷ c.snapshot_buffer)
unfolding on_connect
on_connect-sent net s t version c made fine = ap₂ ◌++◌ (write-sent net s c _ made fine) (
    ap (λ so. flush_lines net so c.snapshot_buffer) made
    ∙ flush_lines-sent net s c.snapshot_buffer fine)

on_connect-empties :
    (net : Network) (t : Moment) (version : Text) (c : BridgeConnection)
    → (on_connect net t version c).0.snapshot_buffer ≡ []
unfolding on_connect
on_connect-empties net t version c = refl

opening :
    (net : Network) (s : ℕ) (t : Moment) (version : Text) (c : BridgeConnection)
    → net.created ≡ some s
    → net.set_up ≡ true
    → ((line : Text) → net.accepts s line ≡ true)
    → let r = run (timer net ∷ opened net t version ∷ []) c in
      (r.1 ≡ connecting s ∷ sent s (hello_line t c.simulation_id version ∷ c.snapshot_buffer))
      × (r.0.snapshot_buffer ≡ [])
unfolding run step
opening net s t version c made up fine =
    let there = record c { socket = some s } in
    let d = on_connect net t version there in
    let at_once : run (timer net ∷ opened net t version ∷ []) c
        ≡ (d.0, connecting s ∷ (d.1 ++ [])) =
      ap (λ r. let o = on_connect net t version r.0 in (o.0, r.1 ++ (o.1 ++ [])))
        (connect-created net s c made up) in
    (
      ap (λ r. r.1) at_once
          ∙ ap (λ w. connecting s ∷ w)
              (append-nil d.1 ∙ on_connect-sent net s t version there refl fine),
      ap (λ r. r.0.snapshot_buffer) at_once ∙ on_connect-empties net t version there,
    )

run-offline_new :
    (cfg : BridgeConfig) (id : Text) (net : Network) (xs : List Taken)
    → run (snapshot_events net xs) (new cfg id)
      ≡ (holding (new cfg id) (map (snapshot_line id) xs), [])
unfolding new
run-offline_new cfg id net xs =
    let c = new cfg id in
    ap (λ b. run (snapshot_events net xs) (record c { snapshot_buffer = b }))
      (sym (last_of-nil cfg.max_buffered_snapshots))
    ∙ run-offline net xs c [] refl

-- If the network creates a socket for a new connection and accepts every write to it, then any snapshots
-- sent before are held back, and the opening writes the hello first, and after it
-- the newest snapshots, as many as the buffer holds at most, in the order in which they were taken. The
-- buffer is empty afterwards.
pub run-offline_opened :
    (cfg : BridgeConfig) (id : Text) (net : Network) (s : ℕ) (xs : List Taken) (t : Moment)
    (version : Text)
    → net.created ≡ some s
    → net.set_up ≡ true
    → ((line : Text) → net.accepts s line ≡ true)
    → let r =
        run (snapshot_events net xs ++ (timer net ∷ opened net t version ∷ [])) (new cfg id) in
      (r.1
        ≡ connecting s
          ∷ sent s (
              hello_line t id version
              ∷ last_of cfg.max_buffered_snapshots (map (snapshot_line id) xs)))
      × (r.0.snapshot_buffer ≡ [])
unfolding new
run-offline_opened cfg id net s xs t version made up fine =
    let lines = map (snapshot_line id) xs in
    let before =
      run-append (snapshot_events net xs) (timer net ∷ opened net t version ∷ []) (new cfg id)
      ∙ ap (λ d. let r = run (timer net ∷ opened net t version ∷ []) d.0 in (r.0, d.1 ++ r.1))
          (run-offline_new cfg id net xs) in
    let (wrote, emptied) = opening net s t version (holding (new cfg id) lines) made up fine in
    (ap (λ r. r.1) before ∙ wrote, ap (λ r. r.0.snapshot_buffer) before ∙ emptied)
