-- ===== src/RateLimit/Refinement.antt =====
-- The limiter answers as the reference limiter does: dropping expired times, and deleting idle
-- keys every thousand calls, changes no answer.
use eve_api_cache.Base.{
  ℕ, ◌+◌, ◌≤◌, ◌<◌, ◌≡◌, refl, true, false, not, List, [], ◌∷◌, ◌++◌, ◌⊎◌, length-append, ap, sym,
  ◌∙◌, arith, ltb, leb, if◌then◌else◌, Text, text_eq, text_eq_iff, All, All-append, All-weaken,
  Bool-cases, inl, inr, length, get_or, lt→leb, leb→lt, leb→le,
}
use mathlib.Core.Path.{ap₂}
use eve_api_cache.Base.Dict.{
  Dict, lookup, insert, lookup-insert, IsDict, insert-IsDict, lookup-filter, filter-IsDict,
}
use eve_api_cache.RateLimit.{
  Limiter, init, drop_expired, is_idle, prune, count_op, hits_of, admit, allow, run,
}
use eve_api_cache.RateLimit.Window.{
  History, in_window, ideal_allow, ideal_run, Monotone, accepted, ideal_run-le-limit,
}

-- The last time of a deque, 0 for an empty one.
last : List ℕ → ℕ
last [] = 0
last (h ∷ []) = h
last (h ∷ g ∷ hs) = last (g ∷ hs)

-- No time of the deque is after its last one, and that is not in the future.
record IsDeque (now : ℕ) (hs : List ℕ) : Type 0 where
  pub last_le : last hs ≤ now
  pub up_to_last : All (λ h. h ≤ last hs) hs

drop-All : (w t b : ℕ) (hs : List ℕ) → All (λ h. h ≤ b) hs → b + w ≤ t → drop_expired w t hs ≡ []
unfolding drop_expired
drop-All w t b [] a le = refl
drop-All w t b (h ∷ hs) a le = ground (arith, drop-All w t b hs a.1 le)

drop_again :
    (w t u : ℕ) (hs : List ℕ) → t ≤ u → drop_expired w u (drop_expired w t hs) ≡ drop_expired w u hs
unfolding drop_expired
drop_again w t u [] le = refl
drop_again w t u (h ∷ hs) le = ground (arith, drop_again w t u hs le)

drop-append :
    (w t now : ℕ) (hs : List ℕ)
    → All (λ h. h ≤ now) hs
    → length (drop_expired w t (hs ++ now ∷ []))
      ≡ (if ltb t (now + w) then 1 else 0) + length (drop_expired w t hs)
unfolding drop_expired
drop-append w t now [] a = ground arith
drop-append w t now (h ∷ hs) a =
    ground (arith, drop-append w t now hs a.1, length-append hs (now ∷ []))

last-append : (now : ℕ) (hs : List ℕ) → last (hs ++ now ∷ []) ≡ now
unfolding last
last-append now [] = refl
last-append now (h ∷ []) = refl
last-append now (h ∷ g ∷ hs) = last-append now (g ∷ hs)

idle-last : (w now : ℕ) (hs : List ℕ) → 0 < length hs → is_idle w now hs ≡ leb (last hs + w) now
unfolding is_idle last
idle-last w now [] h = absurd (omega arith)
idle-last w now (h ∷ []) p = refl
idle-last w now (h ∷ g ∷ hs) p = idle-last w now (g ∷ hs) (omega arith)

drop-IsDeque : (w t now : ℕ) (hs : List ℕ) → IsDeque now hs → IsDeque now (drop_expired w t hs)
unfolding drop_expired last
drop-IsDeque w t now [] d = d
drop-IsDeque w t now (h ∷ []) d = elim (Bool-cases (leb (h + w) t)) [
  | inl gone ↦ rw gone (record { last_le = omega arith; up_to_last = tt })
  | inr stays ↦ rw stays d
]
drop-IsDeque w t now (h ∷ g ∷ hs) d = elim (Bool-cases (leb (h + w) t)) [
  | inl gone ↦
      rw gone (
        drop-IsDeque w t now (g ∷ hs) (record { last_le = d.last_le; up_to_last = d.up_to_last.1 }))
  | inr stays ↦ rw stays d
]

append-IsDeque : (now : ℕ) (hs : List ℕ) → All (λ h. h ≤ now) hs → IsDeque now (hs ++ now ∷ [])
append-IsDeque now hs a = record {
  last_le = rw (last-append now hs) (omega arith);
  up_to_last =
      rw (last-append now hs) (All-append (λ h. h ≤ now) hs (now ∷ []) a (omega arith, tt));
}

IsDeque-up_to : (now : ℕ) (hs : List ℕ) → IsDeque now hs → All (λ h. h ≤ now) hs
IsDeque-up_to now hs d =
    All-weaken (λ h. h ≤ last hs) hs (λ h le. omega (arith, d.last_le, le)) d.up_to_last

idle-drop :
    (w now t : ℕ) (hs : List ℕ)
    → IsDeque now hs
    → is_idle w now hs ≡ true
    → now ≤ t
    → drop_expired w t hs ≡ []
unfolding drop_expired
idle-drop w now t [] d idle le = refl
idle-drop w now t (h ∷ hs) d idle le =
    drop-All w t (last (h ∷ hs)) (h ∷ hs) d.up_to_last
      (ground (arith, idle-last w now (h ∷ hs) (omega arith)))

-- What the limiter remembers agrees with the past.
record Agrees (l : Limiter) (past : History) (now : ℕ) : Type 0 where
  pub is_dict : IsDict l.hits
  pub deques : (k : Text) → IsDeque now (hits_of l k)
  pub counts :
      (k : Text) (t : ℕ)
      → now ≤ t
      → length (drop_expired l.window t (hits_of l k)) ≡ in_window l.window t k past

IsDeque-later : (a b : ℕ) (hs : List ℕ) → a ≤ b → IsDeque a hs → IsDeque b hs
IsDeque-later a b hs le d = record { last_le = omega (arith, d.last_le); up_to_last = d.up_to_last }

Agrees-later : (l : Limiter) (past : History) (a b : ℕ) → a ≤ b → Agrees l past a → Agrees l past b
Agrees-later l past a b le g = record {
  is_dict = g.is_dict;
  deques = λ k. IsDeque-later a b _ le (g.deques k);
  counts = λ k t h. g.counts k t (omega arith);
}

-- The deque of a key after a prune: as before, or empty where all of it had expired.
hits_of-prune :
    (w now : ℕ) (d : Dict (List ℕ)) (k : Text)
    → IsDict d
    → (get_or (lookup k (prune w now d)) [] ≡ get_or (lookup k d) [])
      ⊎ ((get_or (lookup k (prune w now d)) [] ≡ [])
          × (is_idle w now (get_or (lookup k d) []) ≡ true))
unfolding prune
hits_of-prune w now d k h =
    ground (arith, lookup-filter (λ (v : List ℕ). not (is_idle w now v)) k d h)

prune-Agrees :
    (l : Limiter) (past : History) (now : ℕ)
    → Agrees l past now
    → Agrees (record l { hits = prune l.window now l.hits; ops_since_prune = 0 }) past now
unfolding drop_expired
prune-Agrees l past now g = record {
  is_dict = unfold prune in filter-IsDict (λ v. not (is_idle l.window now v)) l.hits g.is_dict;
  deques = λ k. elim (hits_of-prune l.window now l.hits k g.is_dict) [
    | inl same ↦ rw same (g.deques k)
    | inr (gone, idle) ↦ rw gone (unfold last in record { last_le = omega arith; up_to_last = tt })
  ];
  counts = λ k t le. elim (hits_of-prune l.window now l.hits k g.is_dict) [
    | inl same ↦ rw same (g.counts k t le)
    | inr (gone, idle) ↦ rw gone (
        ap length (sym (idle-drop l.window now t (hits_of l k) (g.deques k) idle le))
        ∙ g.counts k t le)
  ];
}

count_op-Agrees :
    (l : Limiter) (past : History) (now : ℕ) → Agrees l past now → Agrees (count_op l now) past now
unfolding count_op
count_op-Agrees l past now g = elim (Bool-cases (leb l.prune_interval (l.ops_since_prune + 1))) [
  | inl due ↦ rw due (prune-Agrees l past now g)
  | inr not_due ↦ rw not_due (record { is_dict = g.is_dict; deques = g.deques; counts = g.counts })
]

-- The deque of one key replaced, with what the new past says of it.
replace-Agrees :
    (l : Limiter) (past past' : History) (now : ℕ) (key : Text) (hs : List ℕ)
    → Agrees l past now
    → IsDeque now hs
    → ((t : ℕ) → now ≤ t → length (drop_expired l.window t hs) ≡ in_window l.window t key past')
    → ((k : Text) (t : ℕ)
        → text_eq key k ≡ false
        → in_window l.window t k past' ≡ in_window l.window t k past)
    → Agrees (record l { hits = insert key hs l.hits }) past' now
replace-Agrees l past past' now key hs g d count other = record {
  is_dict = insert-IsDict key hs l.hits g.is_dict;
  deques = λ k.
      rw (lookup-insert key k hs l.hits)
        (elim (Bool-cases (text_eq key k)) [ inl same ↦ rw same d | inr ne ↦ rw ne (g.deques k) ]);
  counts = λ k t le. rw (lookup-insert key k hs l.hits) (elim (Bool-cases (text_eq key k)) [
    | inl same ↦ ground (arith, count t le, text_eq_iff key k)
    | inr ne ↦ ground (arith, g.counts k t le, other k t ne)
  ]);
}

module _ (l : Limiter) (past : History) (now : ℕ) (key : Text) (g : Agrees l past now) where
  live : List ℕ
  live = drop_expired l.window now (hits_of l key)

  refuse-Agrees : Agrees (record l { hits = insert key live l.hits }) past now
  unfolding live
  refuse-Agrees =
      replace-Agrees l past past now key live g (drop-IsDeque l.window now now _ (g.deques key))
        (λ t le. ap length (drop_again l.window now t (hits_of l key) le) ∙ g.counts key t le)
        (λ k t ne. refl)

  accept-Agrees :
      Agrees (record l { hits = insert key (live ++ now ∷ []) l.hits }) ((key, now) ∷ past) now
  unfolding live in_window
  accept-Agrees =
      let d : IsDeque now live = drop-IsDeque l.window now now _ (g.deques key) in
      replace-Agrees l past ((key, now) ∷ past) now key (live ++ now ∷ []) g
        (append-IsDeque now live (IsDeque-up_to now live d))
        (λ t le. ground (
          arith,
          drop-append l.window t now live (IsDeque-up_to now live d),
          drop_again l.window now t (hits_of l key) le,
          g.counts key t le,
          text_eq_iff key key,
        ))
        (λ k t ne. ground arith)

-- One call gives the answer of the reference limiter, and the memories still agree.
admit-Agrees :
    (l : Limiter) (past : History) (now : ℕ) (key : Text)
    → Agrees l past now
    → 0 < l.limit
    → ((admit l now key).1 ≡ (ideal_allow l.limit l.window past now key).1)
      × Agrees (admit l now key).0 (ideal_allow l.limit l.window past now key).0 now
      × ((admit l now key).0.limit ≡ l.limit)
      × ((admit l now key).0.window ≡ l.window)
unfolding admit ideal_allow live
admit-Agrees l past now key g pos =
    let used : length (live l past now key g) ≡ in_window l.window now key past =
      g.counts key now (omega arith) in
    elim (Bool-cases (leb l.limit (in_window l.window now key past))) [
      | inl full ↦
          rw (used, lt→leb l.limit 0 pos, full) (refl, refuse-Agrees l past now key g, refl, refl)
      | inr room ↦
          rw (used, lt→leb l.limit 0 pos, room)
            (
              ground (arith, used, length-append (live l past now key g) (now ∷ [])),
              accept-Agrees l past now key g,
              refl,
              refl,
            )
    ]

count_op_keeps :
    (l : Limiter) (now : ℕ)
    → ((count_op l now).limit ≡ l.limit) × ((count_op l now).window ≡ l.window)
unfolding count_op
count_op_keeps l now = ground arith

-- A limit of 0 switches the limiter off.
run_disabled :
    (l : Limiter) (past : History) (calls : List (ℕ × Text))
    → l.limit ≡ 0
    → run l calls ≡ ideal_run l.limit l.window past calls
unfolding run ideal_run allow ideal_allow
run_disabled l past [] off = refl
run_disabled l past ((now, key) ∷ calls) off = ground (arith, run_disabled l past calls off)

allow-Agrees :
    (l : Limiter) (past : History) (from now : ℕ) (key : Text)
    → 0 < l.limit
    → Agrees l past from
    → from ≤ now
    → ((allow l now key).1 ≡ (ideal_allow l.limit l.window past now key).1)
      × Agrees (allow l now key).0 (ideal_allow l.limit l.window past now key).0 now
      × ((allow l now key).0.limit ≡ l.limit)
      × ((allow l now key).0.window ≡ l.window)
unfolding allow
allow-Agrees l past from now key pos g le =
    let (limit_kept, window_kept) = count_op_keeps l now in
    let counted =
      admit-Agrees (count_op l now) past now key
        (count_op-Agrees l past now (Agrees-later l past from now le g)) (rw limit_kept pos) in
    rw (lt→leb l.limit 0 pos) (simp (limit_kept, window_kept) at counted)

run-Agrees :
    (l : Limiter) (past : History) (from : ℕ) (calls : List (ℕ × Text))
    → 0 < l.limit
    → Agrees l past from
    → Monotone from calls
    → run l calls ≡ ideal_run l.limit l.window past calls
unfolding run ideal_run
run-Agrees l past from [] pos g mono = refl
run-Agrees l past from ((now, key) ∷ calls) pos g mono =
    let (answer, agrees, same_limit, same_window) = allow-Agrees l past from now key pos g mono.0 in
    ap₂ ◌∷◌ answer (
      simp (same_limit, same_window) at
        (run-Agrees (allow l now key).0 (ideal_allow l.limit l.window past now key).0 now calls
          (rw same_limit pos) agrees mono.1))

init-Agrees : (limit w : ℕ) → Agrees (init limit w) [] 0
unfolding lookup last drop_expired in_window
init-Agrees limit w = record {
  is_dict = tt;
  deques = λ k. record { last_le = omega arith; up_to_last = tt };
  counts = λ k t le. refl;
}

-- For every limit, window and sequence of calls whose clock does not go back, the limiter that
-- starts empty gives exactly the answers and remaining counts of the reference limiter, which
-- never forgets an accepted request.
pub run-eq-ideal_run :
    (limit w : ℕ) (calls : List (ℕ × Text))
    → Monotone 0 calls
    → run (init limit w) calls ≡ ideal_run limit w [] calls
run-eq-ideal_run limit w calls mono = elim (Bool-cases (leb limit 0)) [
  | inl off ↦ run_disabled (init limit w) [] calls (omega (arith, leb→le limit 0 off))
  | inr on ↦ run-Agrees (init limit w) [] 0 calls (leb→lt limit 0 on) (init-Agrees limit w) mono
]

-- With a positive limit and a clock that does not go back, at every time `t` and for every key, at
-- most `limit` of the requests that the limiter accepted lie in the window of `w` ticks that ends
-- at `t`.
pub run-le-limit :
    (limit w : ℕ) (calls : List (ℕ × Text))
    → 0 < limit
    → Monotone 0 calls
    → (t : ℕ) (key : Text)
    → in_window w t key (accepted [] calls (run (init limit w) calls)) ≤ limit
run-le-limit limit w calls pos mono t key =
    rw (run-eq-ideal_run limit w calls mono) (ideal_run-le-limit limit w calls pos mono t key)
