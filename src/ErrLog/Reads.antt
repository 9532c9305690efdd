-- ===== src/ErrLog/Reads.antt =====
-- prof-err-log.c: what the two readers of the log see, `prof_err_log_iterate` and
-- `prof_err_log_size`, in terms of its contents.
use jauto_profiler_mcp.Prelude.{
  ℕ, zero, suc, ◌+◌, ◌*◌, ◌<◌, ◌≡◌, ap, ◌∙◌, sym, subst, Option, some, none, length, List, [], ◌∷◌,
  arith,
}
use jauto_profiler_mcp.ErrLog.{
  ErrEntry, ErrLog, ErrLogSize, start, size_from, log_size, iterate, drain,
}
use jauto_profiler_mcp.ErrLog.Contents.{window, contents}

-- Draining from round `i`, with `n` entries left.
drain_from :
    (log : ErrLog) (f i n : ℕ)
    → i + n ≡ log.count
    → n < f
    → drain f log i ≡ window log.entries (start log + i) n
unfolding drain iterate window
drain_from log zero i n h lt = elim lt [ ]
drain_from log (suc f) i zero h lt = ground arith
drain_from log (suc f) i (suc n) h lt = ground (arith, drain_from log f (i + 1) n, regroup)
  where
    regroup : start log + (i + 1) ≡ start log + i + 1
    regroup = omega arith

-- Iterating from the initial iterator until NULL yields the contents, oldest first, and stops:
-- one round more than there are entries is fuel enough.
pub drain-contents : (log : ErrLog) (f : ℕ) → log.count < f → drain f log 0 ≡ contents log
unfolding contents
drain-contents log f lt =
    drain_from log f 0 log.count (omega arith) lt
    ∙ ap (λ s. window log.entries s log.count) (omega arith)

-- each entry has a message
abbrev pub HasMessages : List ErrEntry → Type 0
HasMessages [] = Unit {0}
HasMessages (e ∷ es) = ((m : List ℕ) × (e.msg ≡ some m)) × HasMessages es

-- the bytes of the messages that are there
abbrev pub msg_bytes : List ErrEntry → ℕ
msg_bytes [] = 0
msg_bytes (e ∷ es) = elim e.msg [ none ↦ 0 | some m ↦ length m ] + msg_bytes es

abbrev size_of : ℕ → ℕ → ℕ → Option ErrLogSize
size_of a b c = some (record { string_size = a; count = b; overhead_size = c })

sizes : (a a' b b' c c' : ℕ) → a ≡ a' → b ≡ b' → c ≡ c' → size_of a b c ≡ size_of a' b' c'
sizes a a' b b' c c' e1 e2 e3 =
    ap (λ x. size_of x b c) e1 ∙ ap (λ x. size_of a' x c) e2 ∙ ap (λ x. size_of a' b' x) e3

size_from-window :
    (log : ErrLog) (s : ErrLogSize) (i n : ℕ)
    → HasMessages (window log.entries (start log + i) n)
    → let es = window log.entries (start log + i) n in
      size_from log s i n
      ≡ some (record {
        string_size = s.string_size + msg_bytes es;
        count = s.count + n;
        overhead_size = s.overhead_size + msg_bytes es + 10 * n;
      })
unfolding size_from window
size_from-window log s i zero h = sizes _ _ _ _ _ _ (omega arith) (omega arith) (omega arith)
size_from-window log s i (suc n) ((m, is), h) =
    let regroup : start log + (i + 1) ≡ start log + i + 1 = omega arith in
    let next : ErrLogSize = record {
      string_size = s.string_size + length m;
      count = s.count + 1;
      overhead_size = s.overhead_size + (2 + length m) + 8;
    } in
    let rest =
      size_from-window log next (i + 1) n
        (subst (λ x. HasMessages (window log.entries x n)) (sym regroup) h) in
    let left = ap (λ x. msg_bytes (window log.entries x n)) regroup in
    rw (is, size_from)
      (rest ∙ sizes _ _ _ _ _ _ (omega (arith, left)) (omega arith) (omega (arith, left)))

-- `prof_err_log_size` of a log whose entries have messages fails no read. It counts the entries, adds
-- up the bytes of their messages, and reports 10 bytes for each entry on top of those.
pub log_size-contents :
    (log : ErrLog)
    → HasMessages (contents log)
    → log_size log
      ≡ some (record {
        string_size = msg_bytes (contents log);
        count = log.count;
        overhead_size = msg_bytes (contents log) + 10 * log.count;
      })
unfolding log_size contents
log_size-contents log h =
    let same : start log + 0 ≡ start log = omega arith in
    let bytes_are = ap (λ x. msg_bytes (window log.entries x log.count)) same in
    size_from-window log (record { string_size = 0; count = 0; overhead_size = 0 }) 0 log.count
      (subst (λ x. HasMessages (window log.entries x log.count)) (sym same) h)
    ∙ sizes _ _ _ _ _ _ (omega (arith, bytes_are)) (omega arith) (omega (arith, bytes_are))
