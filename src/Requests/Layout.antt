-- ===== src/Requests/Layout.antt =====
-- ps-uif-handler.c: the requests about a method against the layout of their message, which is two
-- strings, each behind its length.
use jauto_profiler_mcp.Prelude.{
  ℕ, ◌+◌, ◌*◌, ◌/◌, ◌%◌, ◌^◌, ◌≤◌, ◌<◌, ◌≡◌, refl, ap, ◌∙◌, sym, true, false, List, [], ◌∷◌, ◌++◌,
  ltb, length, arith, length-append, append_assoc, append-nil,
}
use jauto_profiler_mcp.Prelude.Checked.{ok, ◌>>=◌, read, read_bytes, read-append, read_bytes-append}
use jauto_profiler_mcp.Requests.{Request, load_u2, parse_method}

-- a 16-bit number, low byte first
abbrev pub u2 : ℕ → List ℕ
u2 n = n % 256 ∷ n / 256 ∷ []

-- two strings behind their lengths
unfoldable pub encode : List ℕ → List ℕ → List ℕ
encode class_name method_sig =
    u2 (length class_name) ++ (class_name ++ (u2 (length method_sig) ++ method_sig))

load_u2-append :
    (pre post : List ℕ) (n p : ℕ) → p ≡ length pre → load_u2 (pre ++ (u2 n ++ post)) p ≡ ok n
unfolding load_u2
load_u2-append pre post n p e =
    ap (λ r. r >>= λ a. read (pre ++ (u2 n ++ post)) (p + 1) >>= λ b. ok (a + b * 256))
      (read-append pre (n % 256) (n / 256 ∷ post) p e)
    ∙ ap (λ r. r >>= λ b. ok (n % 256 + b * 256))
        (ap (λ b. read b (p + 1)) (sym (append_assoc pre (n % 256 ∷ []) (n / 256 ∷ post)))
          ∙ read-append (pre ++ n % 256 ∷ []) (n / 256) post (p + 1)
              (omega (arith, length-append pre (n % 256 ∷ []))))
    ∙ ap ok (omega arith)

module _ (c s : List ℕ) where
  length-encode : length (encode c s) ≡ 2 + length c + 2 + length s
  unfolding encode
  length-encode =
      omega (arith, length-append c (u2 (length s) ++ s), length-append (u2 (length s)) s)

  class_len : load_u2 (encode c s) 0 ≡ ok (length c)
  unfolding encode
  class_len = load_u2-append [] (c ++ (u2 (length s) ++ s)) (length c) 0 refl

  class_text : read_bytes (encode c s) 2 (length c) ≡ ok c
  unfolding encode
  class_text = read_bytes-append (u2 (length c)) c (u2 (length s) ++ s) 2 refl

  regroup : encode c s ≡ (u2 (length c) ++ c) ++ (u2 (length s) ++ s)
  unfolding encode
  regroup = sym (append_assoc (u2 (length c)) c (u2 (length s) ++ s))

  sig_len : load_u2 (encode c s) (2 + length c) ≡ ok (length s)
  sig_len =
      ap (λ b. load_u2 b (2 + length c)) regroup
      ∙ load_u2-append (u2 (length c) ++ c) s (length s) (2 + length c) (omega arith)

  sig_text : read_bytes (encode c s) (2 + length c + 2) (length s) ≡ ok s
  sig_text =
      ap (λ b. read_bytes b (2 + length c + 2) (length s))
        (regroup
          ∙ sym (append_assoc (u2 (length c) ++ c) (u2 (length s)) s)
          ∙ ap (λ x. ((u2 (length c) ++ c) ++ u2 (length s)) ++ x) (sym (append-nil s)))
      ∙ read_bytes-append ((u2 (length c) ++ c) ++ u2 (length s)) s [] (2 + length c + 2)
          (omega (arith, length-append (u2 (length c) ++ c) (u2 (length s))))

  fits : (n : ℕ) → n ≤ 2 + length c + 2 + length s → ltb (length (encode c s)) n ≡ false
  fits n le = ground (arith, length-encode)

  -- A request about a method whose strings are shorter than 65536 bytes is read back: with memory,
  -- the handler sends the class name and the signature that the client encoded.
  pub parse_method-encode :
      (request : List ℕ → List ℕ → Request)
      → length c < 2 ^ 16
      → length s < 2 ^ 16
      → parse_method request (record { first_ok = true; second_ok = true }) (encode c s)
        ≡ ok (request c s)
  unfolding parse_method
  parse_method-encode request lc ls = rw (fits 2 (omega arith)) (
      rw class_len (
        rw (fits (2 + length c + 2) (omega arith)) (
          rw sig_len (
            rw (fits (2 + length c + 2 + length s) (omega arith))
              (rw class_text (rw sig_text refl))))))
