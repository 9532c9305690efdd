-- ===== src/ErrLog/Contents.antt =====
-- prof-err-log.c: the ring against the list of the last 4096 errors, oldest first.
use jauto_profiler_mcp.Prelude.{
  ℕ, zero, suc, ◌+◌, ◌-◌, ◌%◌, ◌≤◌, ◌<◌, ◌≡◌, refl, ap, ◌∙◌, ◌≢◌, List, [], ◌∷◌, ◌++◌, some, length,
  drop, length-append, arith, sym, dec_lt,
}
use jauto_profiler_mcp.ErrLog.{ErrEntry, ErrLog, cap, start, store, do_push}

-- `n` entries from index `s` on, going round at `cap`
unfoldable pub window : (ℕ → ErrEntry) → ℕ → ℕ → List ErrEntry
window f s zero = []
window f s (suc n) = f (s % cap) ∷ window f (s + 1) n

-- the log as a list, oldest first
unfoldable pub contents : ErrLog → List ErrEntry
contents log = window log.entries (start log) log.count

pub record IsValid (log : ErrLog) : Type 0 where
  pub next_in : log.next < cap
  pub count_in : log.count ≤ cap

pub length-window : (f : ℕ → ErrEntry) (s n : ℕ) → length (window f s n) ≡ n
unfolding window
length-window f s zero = refl
length-window f s (suc n) = ap suc (length-window f (s + 1) n)

-- only the index modulo `cap` counts
window_congr : (f : ℕ → ErrEntry) (s t n : ℕ) → s % cap ≡ t % cap → window f s n ≡ window f t n
unfolding window
window_congr f s t zero h = refl
window_congr f s t (suc n) h = ground (arith, window_congr f (s + 1) (t + 1) n)

window_snoc :
    (f : ℕ → ErrEntry) (s n : ℕ) → window f s (suc n) ≡ window f s n ++ f ((s + n) % cap) ∷ []
unfolding window
window_snoc f s zero = ap (λ k. f (k % cap) ∷ []) (omega arith)
window_snoc f s (suc n) =
    ap (λ r. f (s % cap) ∷ r)
      (window_snoc f (s + 1) n ∙ ap (λ k. window f (s + 1) n ++ f (k % cap) ∷ []) (omega arith))

window-store :
    (f : ℕ → ErrEntry) (j : ℕ) (e : ErrEntry) (s n : ℕ)
    → ((i : ℕ) → i < n → (s + i) % cap ≢ j)
    → window (store f j e) s n ≡ window f s n
unfolding window
window-store f j e s zero h = refl
window-store f j e s (suc n) h =
    ground
      (arith, h 0, window-store f j e (s + 1) n (λ i lt eq. h (i + 1) (omega arith) (omega arith)))

-- A log holds the newest `cap` of its entries.
abbrev pub newest : List ErrEntry → List ErrEntry
newest es = drop (length es - cap) es

-- Writing over the oldest of a full ring drops it and appends the new entry.
window_full :
    (f : ℕ → ErrEntry) (j : ℕ) (e : ErrEntry) (s n : ℕ)
    → suc n ≡ cap
    → j ≡ s % cap
    → window (store f j e) (s + 1) (suc n) ≡ drop 1 (window f s (suc n) ++ e ∷ [])
unfolding window
window_full f j e s n full at =
    window_snoc (store f j e) (s + 1) n
    ∙ ap (λ r. r ++ store f j e ((s + 1 + n) % cap) ∷ [])
        (window-store f j e (s + 1) n (λ i lt eq. omega arith))
    ∙ ap (λ x. window f (s + 1) n ++ x ∷ []) (ground arith)

-- Writing behind a ring with room appends the new entry.
window_room :
    (f : ℕ → ErrEntry) (j : ℕ) (e : ErrEntry) (s n : ℕ)
    → n < cap
    → j ≡ (s + n) % cap
    → window (store f j e) s (suc n) ≡ window f s n ++ e ∷ []
window_room f j e s n room at =
    window_snoc (store f j e) s n
    ∙ ap (λ r. r ++ store f j e ((s + n) % cap) ∷ [])
        (window-store f j e s n (λ i lt eq. omega arith))
    ∙ ap (λ x. window f s n ++ x ∷ []) (ground arith)

window_at :
    (f : ℕ → ErrEntry) (s t n m : ℕ) → s % cap ≡ t % cap → n ≡ m → window f s n ≡ window f t m
window_at f s t n m p q = window_congr f s t n p ∙ ap (window f t) q

pub length-contents : (log : ErrLog) → length (contents log) ≡ log.count
unfolding contents
length-contents log = length-window log.entries (start log) log.count

entry : ℕ → List ℕ → ErrEntry
entry now msg = record { timestamp = now; msg = some msg }

-- Pushing onto a ring with room.
do_push_room :
    (log : ErrLog) (now : ℕ) (msg : List ℕ)
    → IsValid log
    → log.count < cap
    → contents (do_push log now msg) ≡ contents log ++ entry now msg ∷ []
unfolding contents do_push start entry
do_push_room log now msg v room =
    window_at _ _ (start log) _ (suc log.count) (ground arith) (ground arith)
    ∙ window_room log.entries log.next (entry now msg) (start log) log.count room (omega arith)

-- Pushing onto a full ring.
do_push_full :
    (log : ErrLog) (now : ℕ) (msg : List ℕ) (n : ℕ)
    → IsValid log
    → suc n ≡ cap
    → log.count ≡ suc n
    → contents (do_push log now msg) ≡ drop 1 (contents log ++ entry now msg ∷ [])
unfolding contents do_push start entry
do_push_full log now msg n v full count =
    window_at _ _ (start log + 1) _ (suc n) (ground arith) (ground arith)
    ∙ window_full log.entries log.next (entry now msg) (start log) n full (omega arith)
    ∙ ap (λ k. drop 1 (window log.entries (start log) k ++ entry now msg ∷ [])) (sym count)

do_push-IsValid :
    (log : ErrLog) (now : ℕ) (msg : List ℕ) → IsValid log → IsValid (do_push log now msg)
unfolding do_push
do_push-IsValid log now msg v = ground arith

-- On a valid log `do_push` keeps the log valid, and the new contents are the newest 4096 of the
-- old contents followed by the new entry.
pub contents-do_push :
    (log : ErrLog) (now : ℕ) (msg : List ℕ)
    → IsValid log
    → IsValid (do_push log now msg)
      × (contents (do_push log now msg)
          ≡ newest (contents log ++ record { timestamp = now; msg = some msg } ∷ []))
unfolding entry
contents-do_push log now msg v = (
  do_push-IsValid log now msg v,
  elim (dec_lt log.count cap) [
    | yes room ↦ do_push_room log now msg v room ∙ sym (dropped 0 (omega (arith, long)))
    | no full ↦
        do_push_full log now msg (cap - 1) v (omega arith) (omega arith)
        ∙ sym (dropped 1 (omega (arith, long)))
  ],
)
  where
    long : length (contents log ++ entry now msg ∷ []) ≡ log.count + 1
    long = omega (arith, length-append (contents log) (entry now msg ∷ []), length-contents log)

    dropped :
        (k : ℕ)
        → length (contents log ++ entry now msg ∷ []) - cap ≡ k
        → newest (contents log ++ entry now msg ∷ []) ≡ drop k (contents log ++ entry now msg ∷ [])
    dropped k e = ap (λ j. drop j (contents log ++ entry now msg ∷ [])) e
