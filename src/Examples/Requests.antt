-- ===== src/Examples/Requests.antt =====
-- The contexts of two requests.
use cuirass.Prelude.{
  ℕ, ◌≡◌, ◌≢◌, refl, ap, Bool, true, false, Option, none, some, [], ◌==◌, ==_iff, arith,
  if◌then◌else◌, Bool-cases, inl, inr,
}
use cuirass.RequestContext.{
  Key, request_cache_key, request_log_key, other_key, Value, ContextValues, ValueLaws, Memory,
  cache_from_context, log_from_context, with_request_cache, with_request_log, as_cache, as_log,
}
use cuirass.RequestContext.Isolation.{Holds, new_request, new_request-Holds_apart}

abbrev same_key : Key → Key → Bool
same_key request_cache_key request_cache_key = true
same_key request_log_key request_log_key = true
same_key (other_key a) (other_key b) = a == b
same_key _ _ = false

same_key_refl : (k : Key) → same_key k k ≡ true
same_key_refl request_cache_key = refl
same_key_refl request_log_key = refl
same_key_refl (other_key a) = ground arith

same_key_eq : (a b : Key) → same_key a b ≡ true → a ≡ b
same_key_eq request_cache_key request_cache_key h = refl
same_key_eq request_cache_key request_log_key h = cc h
same_key_eq request_cache_key (other_key b) h = cc h
same_key_eq request_log_key request_cache_key h = cc h
same_key_eq request_log_key request_log_key h = refl
same_key_eq request_log_key (other_key b) h = cc h
same_key_eq (other_key a) request_cache_key h = cc h
same_key_eq (other_key a) request_log_key h = cc h
same_key_eq (other_key a) (other_key b) h = ap other_key ((==_iff a b).0 h)

-- Contexts that are functions.
abbrev functions : ContextValues
functions = record {
  Context = Key → Option Value;
  with_value = λ ctx k v j. if same_key k j then some v else ctx j;
  value = λ ctx k. ctx k;
}

functions-ValueLaws : ValueLaws functions
functions-ValueLaws = record {
  value-with_value = λ ctx k v. rw (same_key_refl k) refl;
  value-with_value_ne = λ ctx k j v ne. elim (Bool-cases (same_key k j)) [
    | inl same ↦ absurd (ne (same_key_eq k j same))
    | inr differ ↦ rw differ refl
  ];
}

abbrev no_memory : Memory ℕ
no_memory = record { caches = []; logs = [] }

abbrev first : (Key → Option Value) × Memory ℕ
first = new_request functions (λ k. none) no_memory

first-Holds : Holds functions first.0 first.1 [] []
unfolding with_request_cache with_request_log cache_from_context log_from_context as_cache as_log
first-Holds = record {
  cache_at = 0;
  log_at = 0;
  has_cache = refl;
  has_log = refl;
  cache_there = refl;
  log_there = refl;
}

new_request-Holds_apart_example :
    (old : Holds functions first.0 (new_request functions (λ k. none) first.1).1 [] [])
    × (new : Holds functions
        (new_request functions (λ k. none) first.1).0
        (new_request functions (λ k. none) first.1).1
        []
        [])
    × (old.cache_at ≢ new.cache_at)
    × (old.log_at ≢ new.log_at)
new_request-Holds_apart_example =
    new_request-Holds_apart functions functions-ValueLaws first.0 (λ k. none) first.1 [] []
      first-Holds
