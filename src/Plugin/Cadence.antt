-- ===== src/Plugin/Cadence.antt =====
-- When bridge/openrct2-plugin/src/index.ts sends.
use helter_skelter.Prelude.{
  ℕ, ◌%◌, ◌==◌, ◌≡◌, refl, sym, ap, ◌∙◌, false, Bool-cases, inl, inr, if◌then◌else◌, Text, List, [],
  ◌∷◌, ◌++◌, append_assoc, append-nil, last_of, last_of-nil,
}
use helter_skelter.Connection.{BridgeConfig, BridgeConnection, send_heartbeat, new}
use helter_skelter.Connection.Delivery.{Taken, snapshot_line, holding, send_snapshot-offline}
use helter_skelter.Observation.{build_observation_snapshot}
use helter_skelter.Plugin.{Tick, heartbeat_due, snapshot_due, on_tick, run_ticks}

abbrev pub taken_at : Tick → Taken
taken_at k = (k.snapshot_moment, build_observation_snapshot k.game)

-- The lines of the snapshots of the ticks that the snapshot interval divides.
abbrev pub due_lines : ℕ → Text → List Tick → List Text
due_lines interval id [] = []
due_lines interval id (k ∷ ks) =
    if k.ticks_elapsed % interval == 0
    then snapshot_line id (taken_at k) ∷ due_lines interval id ks
    else due_lines interval id ks

heartbeat_due-offline :
    (k : Tick) (c : BridgeConnection) → c.connected ≡ false → heartbeat_due k c ≡ (c, [])
unfolding heartbeat_due send_heartbeat
heartbeat_due-offline k c h =
    elim (Bool-cases (k.ticks_elapsed % c.config.heartbeat_interval_ticks == 0)) [
      | inl due ↦ rw (due, heartbeat_due) (rw (h, send_heartbeat) refl)
      | inr idle ↦ rw (idle, heartbeat_due) refl
    ]

abbrev lines_of : Tick → BridgeConnection → List Text
lines_of k c = due_lines c.config.snapshot_interval_ticks c.simulation_id (k ∷ [])

snapshot_due-offline :
    (k : Tick) (c : BridgeConnection) (zs : List Text)
    → c.connected ≡ false
    → snapshot_due k (holding c zs) ≡ (holding c (zs ++ lines_of k c), [])
unfolding snapshot_due
snapshot_due-offline k c zs h =
    elim (Bool-cases (k.ticks_elapsed % c.config.snapshot_interval_ticks == 0)) [
      | inl due ↦ rw (due, snapshot_due) (send_snapshot-offline k.network (taken_at k) c zs h)
      | inr idle ↦ rw (idle, snapshot_due) (rw (append-nil zs) refl)
    ]

on_tick-offline :
    (k : Tick) (c : BridgeConnection) (zs : List Text)
    → c.connected ≡ false
    → on_tick k (holding c zs) ≡ (holding c (zs ++ lines_of k c), [])
unfolding on_tick
on_tick-offline k c zs h =
    ap (λ d. let second = snapshot_due k d.0 in (second.0, d.1 ++ second.1))
      (heartbeat_due-offline k (holding c zs) h)
    ∙ snapshot_due-offline k c zs h

due_lines-cons :
    (interval : ℕ) (id : Text) (k : Tick) (ks : List Tick)
    → due_lines interval id (k ∷ []) ++ due_lines interval id ks ≡ due_lines interval id (k ∷ ks)
due_lines-cons interval id k ks = elim (Bool-cases (k.ticks_elapsed % interval == 0)) [
  | inl due ↦ rw due refl
  | inr idle ↦ rw idle refl
]

run_ticks-holding :
    (ks : List Tick) (c : BridgeConnection) (zs : List Text)
    → c.connected ≡ false
    → run_ticks ks (holding c zs)
      ≡ (holding c (zs ++ due_lines c.config.snapshot_interval_ticks c.simulation_id ks), [])
unfolding run_ticks
run_ticks-holding [] c zs h = rw (append-nil zs) refl
run_ticks-holding (k ∷ ks) c zs h =
    let interval = c.config.snapshot_interval_ticks in
    let rest = due_lines interval c.simulation_id ks in
    ap (λ d. ((run_ticks ks d.0).0, d.1 ++ (run_ticks ks d.0).1)) (on_tick-offline k c zs h)
    ∙ run_ticks-holding ks c (zs ++ lines_of k c) h
    ∙ ap (λ b. (holding c b, []))
        (append_assoc zs (lines_of k c) rest
          ∙ ap (λ b. zs ++ b) (due_lines-cons interval c.simulation_id k ks))

-- As long as a new connection has not been opened, the handler of the game's ticks writes nothing, and
-- leaves in the buffer the newest of the snapshots of the ticks that the snapshot interval divides, as
-- many as the buffer may hold, in the order of the ticks; it changes nothing else of the connection.
pub run_ticks-offline :
    (cfg : BridgeConfig) (id : Text) (ks : List Tick)
    → run_ticks ks (new cfg id) ≡ (
      record (new cfg id) {
        snapshot_buffer =
            last_of cfg.max_buffered_snapshots (due_lines cfg.snapshot_interval_ticks id ks);
      },
      [],
    )
unfolding new
run_ticks-offline cfg id ks =
    ap (λ b. run_ticks ks (record (new cfg id) { snapshot_buffer = b }))
      (sym (last_of-nil cfg.max_buffered_snapshots))
    ∙ run_ticks-holding ks (new cfg id) [] refl
