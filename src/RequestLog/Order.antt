-- ===== src/RequestLog/Order.antt =====
-- requestlog/log.go: the order that the first loop of `String` gathers, and the lookups of the second.
use Prim.Native.String.{String}
use mathlib.Core.List.{append_assoc, append-nil}
use cuirass.Prelude.{
  ℕ, ◌+◌, ◌≡◌, refl, sym, ap, ◌∙◌, Bool, true, false, Option, none, some, List, [], ◌∷◌, ◌++◌,
  if◌then◌else◌, map,
}
use cuirass.Prelude.Words.{add_int64}
use cuirass.Prelude.Maps.{string_eq, lookup, contains, contains-append, lookup-insert, beq_self}
use cuirass.RequestLog.{
  RequestLog, execution_time, write_command, AggregatedCommand, Aggregate, new_aggregated_command,
  enter, aggregate_one, aggregate_from, aggregate, write_all, log_string,
}

-- The entries of a list that are not among `seen`, each at its first place.
unfoldable pub distinct : List String → List String → List String
distinct seen [] = []
distinct seen (x ∷ xs) =
    let rest = distinct (seen ++ (x ∷ [])) xs in
    if contains seen x then distinct seen xs else x ∷ rest

abbrev pub is_some : Option AggregatedCommand → Bool
is_some (some ac) = true
is_some none = false

-- The order names the commands that the map holds.
abbrev IsNamed : Aggregate → Type 0
IsNamed a = (k : String) → contains a.order k ≡ is_some (lookup k a.commands)

enter-IsNamed :
    (cmd : String) (t : ℕ) (a : Aggregate) (o : Option AggregatedCommand)
    → lookup cmd a.commands ≡ o
    → IsNamed a
    → IsNamed (enter cmd t a o)
unfolding enter
enter-IsNamed cmd t a (some ac) e n k =
    rw lookup-insert (by_key (string_eq.beq cmd k) (string_eq.beq_iff cmd k).0)
  where
    by_key :
        (b : Bool)
        → (b ≡ true → cmd ≡ k)
        → contains a.order k
          ≡ is_some (
              if b
              then some (record { count = ac.count + 1; total_time = add_int64 ac.total_time t })
              else lookup k a.commands)
    by_key true q = ap (contains a.order) (sym (q refl)) ∙ n cmd ∙ ap is_some e
    by_key false q = n k
enter-IsNamed cmd t a none e n k =
    rw (lookup-insert, contains-append a.order cmd k) (by_key (string_eq.beq cmd k))
  where
    by_key :
        (b : Bool)
        → (if b then true else contains a.order k)
          ≡ is_some (if b then some (new_aggregated_command t) else lookup k a.commands)
    by_key true = refl
    by_key false = n k

aggregate_one-IsNamed :
    (cmd : String) (t : ℕ) (a : Aggregate) → IsNamed a → IsNamed (aggregate_one cmd t a)
unfolding aggregate_one
aggregate_one-IsNamed cmd t a n = enter-IsNamed cmd t a (lookup cmd a.commands) refl n

aggregate_from-IsNamed : (l : RequestLog) (a : Aggregate) → IsNamed a → IsNamed (aggregate_from a l)
unfolding aggregate_from
aggregate_from-IsNamed [] a n = n
aggregate_from-IsNamed (info ∷ l) a n =
    aggregate_from-IsNamed l (aggregate_one (write_command info) (execution_time info) a)
      (aggregate_one-IsNamed (write_command info) (execution_time info) a n)

order-enter :
    (cmd : String) (t : ℕ) (a : Aggregate) (o : Option AggregatedCommand)
    → (enter cmd t a o).order ≡ (if is_some o then a.order else a.order ++ (cmd ∷ []))
unfolding enter
order-enter cmd t a (some ac) = refl
order-enter cmd t a none = refl

order-aggregate_one :
    (cmd : String) (t : ℕ) (a : Aggregate)
    → IsNamed a
    → (aggregate_one cmd t a).order
      ≡ (if contains a.order cmd then a.order else a.order ++ (cmd ∷ []))
unfolding aggregate_one
order-aggregate_one cmd t a n = order-enter cmd t a (lookup cmd a.commands) ∙ rw (n cmd) refl

order-aggregate_from :
    (l : RequestLog) (a : Aggregate)
    → IsNamed a
    → (aggregate_from a l).order ≡ a.order ++ distinct a.order (map write_command l)
unfolding aggregate_from distinct
order-aggregate_from [] a n = sym (append-nil a.order)
order-aggregate_from (info ∷ l) a n =
    order-aggregate_from l (aggregate_one cmd t a) (aggregate_one-IsNamed cmd t a n)
    ∙ rw (order-aggregate_one cmd t a n) (by_test (contains a.order cmd))
  where
    cmd : String
    cmd = write_command info

    t : ℕ
    t = execution_time info

    by_test :
        (b : Bool)
        → (if b then a.order else a.order ++ (cmd ∷ []))
            ++ distinct (if b then a.order else a.order ++ (cmd ∷ [])) (map write_command l)
          ≡ a.order
            ++ (if b
                then distinct a.order (map write_command l)
                else cmd ∷ distinct (a.order ++ (cmd ∷ [])) (map write_command l))
    by_test true = refl
    by_test false = append_assoc a.order (cmd ∷ []) _

held : (o : Option AggregatedCommand) → is_some o ≡ true → (ac : AggregatedCommand) × (o ≡ some ac)
held (some ac) h = (ac, refl)
held none h = cc

pub if_true_left : {b : Bool} (c : Bool) → b ≡ true → (if b then true else c) ≡ true
if_true_left c h = rw h refl

pub if_true_right : (b : Bool) {c : Bool} → c ≡ true → (if b then true else c) ≡ true
if_true_right true h = refl
if_true_right false h = h

pub aggregate-IsNamed : (l : RequestLog) → IsNamed (aggregate l)
unfolding contains lookup
aggregate-IsNamed l = aggregate_from-IsNamed l (record { order = []; commands = [] }) (λ k. refl)

-- The order of the first loop has each command once, in the order in which the log has them first.
pub order-aggregate : (l : RequestLog) → (aggregate l).order ≡ distinct [] (map write_command l)
unfolding contains lookup
order-aggregate l = order-aggregate_from l (record { order = []; commands = [] }) (λ k. refl)

module _ (format_int : ℕ → String) where
  write_all_total :
      (past_first : Bool) (cmds : List String) (m : List (String × AggregatedCommand))
      → ((k : String) → contains cmds k ≡ true → is_some (lookup k m) ≡ true)
      → (s : String) × (write_all format_int past_first cmds m ≡ some s)
  unfolding write_all contains
  write_all_total past_first [] m h = (_, refl)
  write_all_total past_first (cmd ∷ cmds) m h =
      let here = held (lookup cmd m) (h cmd (if_true_left _ (beq_self cmd))) in
      let rest = write_all_total true cmds m (λ k e. h k (if_true_right (string_eq.beq cmd k) e)) in
      rw (here.1, rest.1) (_, refl)

  -- `String` never meets a command that its map does not hold, so it returns a string for every log.
  pub log_string_total : (l : RequestLog) → (s : String) × (log_string format_int l ≡ some s)
  unfolding log_string
  log_string_total l =
      write_all_total false (aggregate l).order (aggregate l).commands
        (λ k h. sym (aggregate-IsNamed l k) ∙ h)
