-- ===== src/Json/Encode/Buffer.antt =====
-- What the encoder's helpers push onto the buffer.
use puny_gui.Prelude.{
  ℕ, zero, suc, ◌+◌, ◌-◌, ◌≤◌, ◌≡◌, refl, sym, ap, ◌∙◌, true, false, List, [], ◌∷◌, ◌++◌, Option,
  none, some, append_assoc, append-nil, length, length-append, ltb, ◌==◌, ◌&&◌, arith, codes,
  Bool-cases, inl, inr, get_or, take-length-append, if_ind,
}
use puny_gui.Json.Result.{Error, Result, ok, err, ◌>>=◌, invalid_utf8}
use puny_gui.Json.Unicode.{
  read_codepoint, escape_codepoint, escapes, read_two, read_three, read_four, is_continuation,
}
use puny_gui.Json.Encode.{
  Encoder, push, indented, push_tabs, encode_newline, encode_read, encode_bytes, encode_string,
  comma_off, close,
}
use puny_gui.Json.Printed.{
  Layout, tabs, new_line, cons_point, read_points, code_points, quoted, text_verdict, string_points,
}

abbrev pub layout : Encoder → Layout
layout e = record { tab = e.tab; newline = e.newline }

pub push-push : (s t : List ℕ) (e : Encoder) → push t (push s e) ≡ push (s ++ t) e
push-push s t e = ap (λ text. record e { text = text }) (append_assoc e.text s t)

pub push-nil : (e : Encoder) → push [] e ≡ e
push-nil e = ap (λ text. record e { text = text }) (append-nil e.text)

push_tabs_lem : (n : ℕ) (e : Encoder) → push_tabs n e ≡ push (tabs n e.tab) e
unfolding push_tabs
push_tabs_lem zero e = sym (push-nil e)
push_tabs_lem (suc n) e = push_tabs_lem n (push e.tab e) ∙ push-push e.tab (tabs n e.tab) e

tabs_nil : (n : ℕ) → tabs n [] ≡ []
tabs_nil zero = refl
tabs_nil (suc n) = tabs_nil n

tabs_empty : (n : ℕ) (tab : List ℕ) → (length tab == 0) ≡ true → tabs n tab ≡ []
tabs_empty n [] h = tabs_nil n
tabs_empty n (c ∷ cs) h = absurd (ground arith)

pub encode_newline_lem : (e : Encoder) → encode_newline e ≡ push (new_line (layout e) e.indent) e
unfolding encode_newline
encode_newline_lem e = elim (Bool-cases (length e.tab == 0)) [
  | inl none_there ↦
      rw (encode_newline, none_there)
        (ap (λ t. push t e)
          (sym (append-nil e.newline)
            ∙ ap (e.newline ++◌) (sym (tabs_empty e.indent e.tab none_there))))
  | inr some_there ↦
      rw (encode_newline, some_there)
        (push_tabs_lem e.indent (push e.newline e) ∙ push-push e.newline (tabs e.indent e.tab) e)
]

-- No more bytes are left than there were.
abbrev Shorter : ℕ → Option (ℕ × List ℕ) → Type 0
Shorter n none = Unit
Shorter n (some (u, rest)) = length rest ≤ n

read_two-Shorter : (c : ℕ) (cs : List ℕ) → Shorter (length cs) (read_two c cs)
read_two-Shorter c [] = tt
read_two-Shorter c (c₁ ∷ cs) =
    if_ind (Shorter (suc (length cs))) (is_continuation c₁) (λ e. omega arith) (λ e. tt)

read_three-Shorter : (c : ℕ) (cs : List ℕ) → Shorter (length cs) (read_three c cs)
read_three-Shorter c [] = tt
read_three-Shorter c (c₁ ∷ []) = tt
read_three-Shorter c (c₁ ∷ c₂ ∷ cs) =
    if_ind (Shorter (suc (suc (length cs)))) (is_continuation c₁ && is_continuation c₂)
      (λ e. omega arith) (λ e. tt)

read_four-Shorter : (c : ℕ) (cs : List ℕ) → Shorter (length cs) (read_four c cs)
read_four-Shorter c [] = tt
read_four-Shorter c (c₁ ∷ []) = tt
read_four-Shorter c (c₁ ∷ c₂ ∷ []) = tt
read_four-Shorter c (c₁ ∷ c₂ ∷ c₃ ∷ cs) =
    if_ind (Shorter (suc (suc (suc (length cs)))))
      (is_continuation c₁ && (is_continuation c₂ && is_continuation c₃)) (λ e. omega arith)
      (λ e. tt)

read_codepoint-Shorter : (c : ℕ) (cs : List ℕ) → Shorter (length cs) (read_codepoint c cs)
unfolding read_codepoint
read_codepoint-Shorter c cs =
    if_ind (Shorter (length cs)) (ltb c 0x80) (λ e. omega arith)
      (λ e.
        if_ind (Shorter (length cs)) (ltb c 0xE0) (λ e. read_two-Shorter c cs)
          (λ e.
            if_ind (Shorter (length cs)) (ltb c 0xF0) (λ e. read_three-Shorter c cs)
              (λ e.
                if_ind (Shorter (length cs)) (ltb c 0xF8) (λ e. read_four-Shorter c cs) (λ e. tt))))

abbrev pushed : Option (List ℕ) → Encoder → Result Error Encoder
pushed none e = err invalid_utf8
pushed (some us) e = ok (push (escapes us) e)

pushed-cons_point :
    (u : ℕ) (o : Option (List ℕ)) (e : Encoder)
    → pushed o (push (escape_codepoint u) e) ≡ pushed (cons_point u o) e
pushed-cons_point u none e = refl
pushed-cons_point u (some us) e = ap ok (push-push (escape_codepoint u) (escapes us) e)

encode_read_lem :
    (n : ℕ) (more : List ℕ → Encoder → Result Error Encoder) (points : List ℕ → Option (List ℕ))
    (e : Encoder) (o : Option (ℕ × List ℕ))
    → Shorter n o
    → ((rest : List ℕ) (e : Encoder) → length rest ≤ n → more rest e ≡ pushed (points rest) e)
    → encode_read more e o ≡ pushed (read_points points o) e
encode_read_lem n more points e none s h = refl
encode_read_lem n more points e (some (u, rest)) s h =
    h rest (push (escape_codepoint u) e) s ∙ pushed-cons_point u (points rest) e

encode_bytes_lem :
    (f : ℕ) (s : List ℕ) (e : Encoder)
    → length s ≤ f
    → encode_bytes f s e ≡ pushed (code_points f s) e
unfolding encode_bytes code_points
encode_bytes_lem f [] e h = ap ok (sym (push-nil e))
encode_bytes_lem zero (c ∷ cs) e h = absurd (omega arith)
encode_bytes_lem (suc f) (c ∷ cs) e h =
    encode_read_lem (length cs) (encode_bytes f) (code_points f) e (read_codepoint c cs)
      (read_codepoint-Shorter c cs) λ rest e' l. encode_bytes_lem f rest e' (omega arith)

-- The text of a part that can be encoded.
abbrev pub writes : Result Error Unit → List ℕ → Encoder → Result Error Encoder
writes v t e = v >>= λ _. ok (push t e)

pushed_quotes :
    (o : Option (List ℕ)) (e : Encoder)
    → (pushed o (push (codes "\"") e) >>= λ e'. ok (push (codes "\"") e'))
      ≡ writes (text_verdict o) (quoted o) e
pushed_quotes none e = refl
pushed_quotes (some us) e = ap ok (
    push-push (escapes us) (codes "\"") (push (codes "\"") e)
    ∙ push-push (codes "\"") (escapes us ++ codes "\"") e)

pub encode_string_lem :
    (s : List ℕ) (e : Encoder)
    → encode_string s e ≡ writes (text_verdict (string_points s)) (quoted (string_points s)) e
unfolding encode_string
encode_string_lem s e =
    ap (λ r. r >>= λ e'. ok (push (codes "\"") e'))
      (encode_bytes_lem (length s) s (push (codes "\"") e) (omega arith))
    ∙ pushed_quotes (string_points s) e

last_lem : (t : List ℕ) (c : ℕ) → get_or (t ++ c ∷ []) (length t) 0 ≡ c
last_lem [] c = refl
last_lem (x ∷ t) c = last_lem t c

length_one_more : (t : List ℕ) (c : ℕ) → length (t ++ c ∷ []) - 1 ≡ length t
length_one_more t c = omega (arith, length-append t (c ∷ []))

comma_off_comma :
    (t : List ℕ) (e : Encoder)
    → comma_off (record e { text = t ++ b',' ∷ [] })
      ≡ push (new_line (layout e) e.indent) (record e { text = t })
unfolding comma_off
comma_off_comma t e =
    rw (comma_off, length_one_more t b',', last_lem t b',')
      (ap (λ t'. encode_newline (record e { text = t' })) (take-length-append t (b',' ∷ []))
        ∙ encode_newline_lem (record e { text = t }))

comma_off_bare :
    (t : List ℕ) (c : ℕ) (e : Encoder)
    → (c == b',') ≡ false
    → comma_off (record e { text = t ++ c ∷ [] }) ≡ record e { text = t ++ c ∷ [] }
unfolding comma_off
comma_off_bare t c e h = rw (comma_off, length_one_more t c, last_lem t c, h) refl

back_out : (n : ℕ) → n + 1 - 1 ≡ n
back_out n = omega arith

pub close_comma :
    (bracket : ℕ) (t : List ℕ) (e : Encoder)
    → close bracket (push (t ++ b',' ∷ []) (indented e))
      ≡ push (t ++ (new_line (layout e) e.indent ++ bracket ∷ [])) e
unfolding close
close_comma bracket t e =
    ap
      (λ n.
        push (bracket ∷ [])
          (comma_off (record e { text = e.text ++ (t ++ b',' ∷ []); indent = n })))
      (back_out e.indent)
    ∙ ap (λ x. push (bracket ∷ []) (comma_off (record e { text = x })))
        (sym (append_assoc e.text t (b',' ∷ [])))
    ∙ ap (push (bracket ∷ [])) (comma_off_comma (e.text ++ t) e)
    ∙ push-push (new_line (layout e) e.indent) (bracket ∷ []) (push t e)
    ∙ push-push t (new_line (layout e) e.indent ++ bracket ∷ []) e

pub close_bare :
    (bracket c : ℕ) (e : Encoder)
    → (c == b',') ≡ false
    → close bracket (indented (push (c ∷ []) e)) ≡ push (c ∷ bracket ∷ []) e
unfolding close
close_bare bracket c e h =
    ap (λ n. push (bracket ∷ []) (comma_off (record e { text = e.text ++ c ∷ []; indent = n })))
      (back_out e.indent)
    ∙ ap (push (bracket ∷ [])) (comma_off_bare e.text c e h)
    ∙ push-push (c ∷ []) (bracket ∷ []) e
