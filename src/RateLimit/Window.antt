-- ===== src/RateLimit/Window.antt =====
-- The reference limiter, which keeps every accepted request for ever, and its guarantee.
use eve_api_cache.Base.{
  ℕ, ◌+◌, ◌-◌, ◌≤◌, ◌<◌, ◌≡◌, Bool, true, false, ◌&&◌, List, [], ◌∷◌, arith, ltb, leb,
  if◌then◌else◌, Text, text_eq, text_eq_iff, All, Bool-cases, inl, inr, lt→leb, leb→lt,
}

-- Accepted requests, the latest first.
abbrev pub History : Type 0
History = List (Text × ℕ)

-- How many accepted requests of the key lie in the window of `w` ticks that ends at `t`.
unfoldable pub in_window : ℕ → ℕ → Text → History → ℕ
in_window w t key [] = 0
in_window w t key ((k, h) ∷ past) =
    (if text_eq k key && leb h t && ltb t (h + w) then 1 else 0) + in_window w t key past

-- Accept while the window that ends now holds fewer than `limit` accepted requests.
unfoldable pub ideal_allow : ℕ → ℕ → History → ℕ → Text → History × (Bool × ℕ)
ideal_allow limit w past now key =
    let used = in_window w now key past in
    if leb limit 0
    then (past, (true, limit))
    else if leb limit used
    then (past, (false, 0))
    else ((key, now) ∷ past, (true, limit - (used + 1)))

unfoldable pub ideal_run : ℕ → ℕ → History → List (ℕ × Text) → List (Bool × ℕ)
ideal_run limit w past [] = []
ideal_run limit w past ((now, key) ∷ calls) =
    let (past', answer) = ideal_allow limit w past now key in answer ∷ ideal_run limit w past' calls

-- The clock of the calls does not go back.
abbrev pub Monotone : ℕ → List (ℕ × Text) → Type 0
Monotone from [] = Unit
Monotone from ((now, key) ∷ calls) = (from ≤ now) × Monotone now calls

-- The requests that the answers accepted, the latest first.
unfoldable pub accepted : History → List (ℕ × Text) → List (Bool × ℕ) → History
accepted past [] answers = past
accepted past (call ∷ calls) [] = past
accepted past ((now, key) ∷ calls) ((yes_no, left) ∷ answers) =
    accepted (if yes_no then (key, now) ∷ past else past) calls answers

abbrev pub UpTo : ℕ → History → Type 0
UpTo now = All (λ e. e.1 ≤ now)

-- A later window end sees no more of the past than an earlier one, once all of it is past.
in_window_later :
    (w t u : ℕ) (key : Text) (past : History)
    → UpTo t past
    → t ≤ u
    → in_window w u key past ≤ in_window w t key past
unfolding in_window
in_window_later w t u key [] h le = omega arith
in_window_later w t u key ((k, x) ∷ past) h le =
    ground (arith, in_window_later w t u key past h.1 le)

record Bounded (limit w now : ℕ) (past : History) : Type 0 where
  pub past_only : UpTo now past
  pub within : (t : ℕ) (key : Text) → in_window w t key past ≤ limit

UpTo-later : (a b : ℕ) (past : History) → a ≤ b → UpTo a past → UpTo b past
UpTo-later a b [] le h = tt
UpTo-later a b (e ∷ past) le h = (omega arith, UpTo-later a b past le h.1)

-- One more accepted request at a time when fewer than `limit` are in the window.
Bounded-cons :
    (limit w now : ℕ) (past : History) (key : Text)
    → UpTo now past
    → ((t : ℕ) (j : Text) → in_window w t j past ≤ limit)
    → in_window w now key past < limit
    → (t : ℕ) (j : Text) → in_window w t j ((key, now) ∷ past) ≤ limit
unfolding in_window
Bounded-cons limit w now past key up within room t j =
    ground (arith, within t j, in_window_later w now t j past up, text_eq_iff key j)

ideal_allow-Bounded :
    (limit w now : ℕ) (past : History) (key : Text)
    → 0 < limit
    → Bounded limit w now past
    → Bounded limit w now (ideal_allow limit w past now key).0
unfolding ideal_allow
ideal_allow-Bounded limit w now past key pos b =
    elim (Bool-cases (leb limit (in_window w now key past))) [
      | inl full ↦ rw (lt→leb limit 0 pos, full) b
      | inr room ↦
          rw (lt→leb limit 0 pos, room)
            (record {
              past_only = (omega arith, b.past_only);
              within = Bounded-cons limit w now past key b.past_only b.within (leb→lt _ _ room);
            })
    ]

ideal_answer :
    (limit w now : ℕ) (past : History) (key : Text)
    → 0 < limit
    → (ideal_allow limit w past now key).0
      ≡ (if (ideal_allow limit w past now key).1.0 then (key, now) ∷ past else past)
unfolding ideal_allow
ideal_answer limit w now past key pos = ground arith

ideal_run-Bounded :
    (limit w : ℕ) (calls : List (ℕ × Text)) (now : ℕ) (past : History)
    → 0 < limit
    → Monotone now calls
    → Bounded limit w now past
    → (t : ℕ) (key : Text)
    → in_window w t key (accepted past calls (ideal_run limit w past calls)) ≤ limit
unfolding ideal_run accepted
ideal_run-Bounded limit w [] now past pos mono b t key = b.within t key
ideal_run-Bounded limit w ((at, k) ∷ calls) now past pos mono b t key =
    let b' : Bounded limit w at past = record {
      past_only = UpTo-later now at past mono.0 b.past_only;
      within = b.within;
    } in
    rw (← ideal_answer limit w at past k pos) (
      ideal_run-Bounded limit w calls at (ideal_allow limit w past at k).0 pos mono.1
        (ideal_allow-Bounded limit w at past k pos b') t key)

-- From an empty past, no window ever holds more than `limit` accepted requests of one key.
pub ideal_run-le-limit :
    (limit w : ℕ) (calls : List (ℕ × Text))
    → 0 < limit
    → Monotone 0 calls
    → (t : ℕ) (key : Text)
    → in_window w t key (accepted [] calls (ideal_run limit w [] calls)) ≤ limit
unfolding in_window
ideal_run-le-limit limit w calls pos mono =
    ideal_run-Bounded limit w calls 0 [] pos mono
      (record { past_only = tt; within = λ t key. omega arith })
