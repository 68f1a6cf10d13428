-- ===== src/MetricsStream/Rounds.antt =====
-- metricsstream/handler.go: what one round of the stream writes, at any readings of the clock.
use Prim.Native.String.{String}
use mathlib.Core.Path.{ap₂}
use cuirass.Prelude.{
  ℕ, suc, false, ◌≡◌, refl, ap, ◌∙◌, true, Option, none, some, List, [], ◌∷◌, ◌++◌, arith, ◌==◌,
  if◌then◌else◌, length, map,
}
use cuirass.Prelude.Options.{Returns, returns}
use cuirass.Prelude.Maps.{insert, string_eq}
use cuirass.Util.Clock.{Clock, now, later}
use cuirass.Num.Float.{Float64}
use cuirass.Num.RollingPercentile.Range.{RankLaws}
use cuirass.Metrics.{CommandMetrics, all_metrics}
use cuirass.Metrics.Events.{event_eq}
use cuirass.MetricsStream.{
  StreamEntry, stream_entry, Chunk, text, json, flushed, write_metrics, write_all_metrics,
  serve_round,
}
use cuirass.Executor.{State, is_circuit_breaker_open}
use cuirass.MetricsStream.Safety.{Few, entry-Safe}

-- The commands whose entries are written, in their order.
abbrev pub names : List Chunk → List String
names [] = []
names (json entry ∷ chunks) = entry.name ∷ names chunks
names (text t ∷ chunks) = names chunks
names (flushed ∷ chunks) = names chunks

abbrev pub AllFew : List CommandMetrics → Type 0
AllFew [] = Unit {0}
AllFew (m ∷ ms) = Few m × AllFew ms

names-flushed : (chunks : List Chunk) → names (chunks ++ (flushed ∷ [])) ≡ names chunks
names-flushed [] = refl
names-flushed (json entry ∷ chunks) = ap (λ ns. entry.name ∷ ns) (names-flushed chunks)
names-flushed (text t ∷ chunks) = names-flushed chunks
names-flushed (flushed ∷ chunks) = names-flushed chunks

module _ (f : Float64) (sort : List ℕ → List ℕ) (laws : RankLaws f)
    (same_length : (vs : List ℕ) → length (sort vs) ≡ length vs) {V W : Type 0} where
  write_metrics-name :
      (m : CommandMetrics) (s : State V W)
      → Few m
      → Returns (λ r. r.0.name ≡ m.name) (write_metrics f sort m s)
  unfolding write_metrics
  write_metrics-name m s few =
      let (is_open, s') = is_circuit_breaker_open m.name (record s { wall = later s.wall }) in
      stored s' (stream_entry f sort (now s.wall) is_open m.name m s'.clock)
        (entry-Safe f sort laws same_length (now s.wall) is_open m.name m s'.clock few)
    where
      stored :
          (s' : State V W) (o : Option (StreamEntry × CommandMetrics × Clock))
          → Returns (λ (x : StreamEntry × CommandMetrics × Clock). (x.0.name ≡ m.name) × Few x.1) o
          → Returns
              (λ (r : StreamEntry × State V W). r.0.name ≡ m.name)
              (elim o [
                | none ↦ none
                | some (entry, m', c') ↦ some (
                  entry,
                  record s' {
                    metrics = record s'.metrics {
                      command_metrics = insert m.name m' s'.metrics.command_metrics;
                    };
                    clock = c';
                  },
                )
              ])
      stored s' o (returns x p) = returns _ p.0

  write_all_metrics-names :
      (ms : List CommandMetrics) (s : State V W)
      → AllFew ms
      → Returns (λ r. names r.0 ≡ map (λ m. m.name) ms) (write_all_metrics f sort ms s)
  unfolding write_all_metrics
  write_all_metrics-names [] s few = returns _ refl
  write_all_metrics-names (m ∷ ms) s few =
      one (write_metrics f sort m s) (write_metrics-name m s few.0)
        (λ s'. write_all_metrics-names ms s' few.1)
    where
      rest :
          (entry : StreamEntry)
          → entry.name ≡ m.name
          → (o : Option (List Chunk × State V W))
          → Returns (λ r. names r.0 ≡ map (λ m. m.name) ms) o
          → Returns
              (λ (r : List Chunk × State V W). names r.0 ≡ map (λ m. m.name) (m ∷ ms))
              (elim o [
                | none ↦ none
                | some (chunks, s'') ↦ some (text "data: " ∷ json entry ∷ text "\n" ∷ chunks, s'')
              ])
      rest entry q o (returns r p) = returns _ (ap₂ ◌∷◌ q p)

      one :
          (o : Option (StreamEntry × State V W))
          → Returns (λ r. r.0.name ≡ m.name) o
          → ((s' : State V W)
              → Returns (λ r. names r.0 ≡ map (λ m. m.name) ms) (write_all_metrics f sort ms s'))
          → Returns
              (λ (r : List Chunk × State V W). names r.0 ≡ map (λ m. m.name) (m ∷ ms))
              (elim o [
                | none ↦ none
                | some (entry, s') ↦ elim (write_all_metrics f sort ms s') [
                  | none ↦ none
                  | some (chunks, s'') ↦ some (text "data: " ∷ json entry ∷ text "\n" ∷ chunks, s'')
                ]
              ])
      one o (returns (entry, s') q) others =
          rest entry q (write_all_metrics f sort ms s') (others s')

  -- One round of the stream, to a response that can be flushed, is written without a panic at any
  -- readings of the clock: one entry for each command that has metrics, in their order. The float64
  -- ranks are as IEEE 754 has them, sorting keeps the number of the values, and no command has as
  -- many as 2 ^ 62 of them.
  pub serve_round-names :
      (s : State V W)
      → AllFew (all_metrics s.metrics)
      → Returns
          (λ r. names r.0 ≡ map (λ m. m.name) (all_metrics s.metrics))
          (serve_round f sort true s)
  unfolding serve_round
  serve_round-names s few = by_metrics (all_metrics s.metrics) few
    where
      flush :
          (ms : List CommandMetrics) (o : Option (List Chunk × State V W))
          → Returns (λ r. names r.0 ≡ map (λ m. m.name) ms) o
          → Returns
              (λ (r : List Chunk × State V W). names r.0 ≡ map (λ m. m.name) ms)
              (elim o [
                | none ↦ none
                | some (chunks, s') ↦ if true then some (chunks ++ (flushed ∷ []), s') else none
              ])
      flush ms o (returns (chunks, s') p) = returns _ (names-flushed chunks ∙ p)

      by_metrics :
          (ms : List CommandMetrics)
          → AllFew ms
          → Returns
              (λ (r : List Chunk × State V W). names r.0 ≡ map (λ m. m.name) ms)
              (elim (if length ms == 0
                then some (text "ping: \n" ∷ [], s)
                else write_all_metrics f sort ms s) [
                  | none ↦ none
                  | some (chunks, s') ↦ if true then some (chunks ++ (flushed ∷ []), s') else none
                ])
      by_metrics [] few = returns _ refl
      by_metrics (m ∷ ms) few = rw (not_empty (length ms)) (
          flush (m ∷ ms) (write_all_metrics f sort (m ∷ ms) s)
            (write_all_metrics-names (m ∷ ms) s few))
        where
          not_empty : (n : ℕ) → (suc n == 0) ≡ false
          not_empty n = ground arith
