-- ===== src/Command/Exchange.antt =====
-- From the bytes of a message to the branch and the parameters that it names.
use bsreadrepeater.Base.{
  ◌&&◌, true, Bool, ◌∷◌, [], refl, ◌==◌, Bytes, not, arith, ◌++◌, ◌≡◌, length, ◌⊎◌, ◌∙◌, fault, ap,
  ◌≤◌, length-append, ◌<◌, ◌+◌, set, drop, min, Bool-cases, if_false, inl, leb, ◌-◌, zero, if_true,
  ℕ, inr, false, length-take, suc, take,
}
use bsreadrepeater.Channel.{Outside}
use bsreadrepeater.Command.{received_into, buf_size, recv_max, Session}
use bsreadrepeater.Command.Dispatch.{
  params, add_source_text, branch_of, handle_message, remove_output_text, behind_name, run_branch,
  Branch, add_output_text, reconnect_source_text, remove_source_text,
}
use bsreadrepeater.Command.Reply.{Format}
use bsreadrepeater.JsonCommand.{JsonParser}
use bsreadrepeater.Split.Fields.{fields_field, fields_of_no_comma}
use bsreadrepeater.Split.Join.{commas, split_texts-eq-fields}
use bsreadrepeater.Text.{codes, starts_with, c_string}

-- What may stand in a parameter: no comma and no NUL.
unfoldable pub no_nul : Bytes → Bool
no_nul [] = true
no_nul (b ∷ bs) = not (b == 0) && no_nul bs

c_string_of_no_nul : (a : Bytes) → no_nul a ≡ true → c_string a ≡ a
unfolding c_string no_nul
c_string_of_no_nul [] h = refl
c_string_of_no_nul (b ∷ bs) h = ground (arith, c_string_of_no_nul bs)

pub record IsParam (a : Bytes) : Type 0 where
  pub no_comma : commas a ≡ 0
  pub text : no_nul a ≡ true

params-one : (name a : Bytes) → commas name ≡ 0 → IsParam a → params (name ++ b',' ∷ a) ≡ a ∷ []
params-one name a n p =
    ap behind_name (
      split_texts-eq-fields (name ++ b',' ∷ a)
      ∙ fields_field 6 name a n
      ∙ ap (◌∷◌ name) (fields_of_no_comma 6 a p.no_comma))
    ∙ rw (c_string_of_no_nul a p.text) refl

params-two :
    (name a b : Bytes)
    → commas name ≡ 0
    → IsParam a
    → IsParam b
    → params (name ++ b',' ∷ (a ++ b',' ∷ b)) ≡ a ∷ b ∷ []
params-two name a b n p q =
    ap behind_name (
      split_texts-eq-fields (name ++ b',' ∷ (a ++ b',' ∷ b))
      ∙ fields_field 6 name (a ++ b',' ∷ b) n
      ∙ ap (◌∷◌ name)
          (fields_field 5 a b p.no_comma ∙ ap (◌∷◌ a) (fields_of_no_comma 5 b q.no_comma)))
    ∙ rw (c_string_of_no_nul a p.text, c_string_of_no_nul b q.text) refl

-- The commands with one parameter, as a client writes them, and with two.
pub data OneParam : Type 0 where
  add_source_one remove_source_one reconnect_source_one : OneParam

pub data TwoParams : Type 0 where
  add_output_two remove_output_two : TwoParams

abbrev pub one_name : OneParam → Bytes
one_name add_source_one = codes "add-source"
one_name remove_source_one = codes "remove-source"
one_name reconnect_source_one = codes "reconnect-source"

abbrev pub one_branch : OneParam → Branch
one_branch add_source_one = add_source_text
one_branch remove_source_one = remove_source_text
one_branch reconnect_source_one = reconnect_source_text

abbrev pub two_name : TwoParams → Bytes
two_name add_output_two = codes "add-output"
two_name remove_output_two = codes "remove-output"

abbrev pub two_branch : TwoParams → Branch
two_branch add_output_two = add_output_text
two_branch remove_output_two = remove_output_text

abbrev pub write_one : OneParam → Bytes → Bytes
write_one c a = one_name c ++ b',' ∷ a

abbrev pub write_two : TwoParams → Bytes → Bytes → Bytes
write_two c a b = two_name c ++ b',' ∷ (a ++ b',' ∷ b)

-- A written command with one parameter that has neither a comma nor a NUL, be it empty, takes its own
-- branch, and the branch finds that parameter.
pub one_param_roundtrip :
    (c : OneParam) (a : Bytes)
    → IsParam a
    → (branch_of (write_one c a) ≡ one_branch c) × (params (write_one c a) ≡ a ∷ [])
unfolding branch_of starts_with commas
one_param_roundtrip add_source_one a p = (ground arith, params-one (codes "add-source") a refl p)
one_param_roundtrip remove_source_one a p =
    (ground arith, params-one (codes "remove-source") a refl p)
one_param_roundtrip reconnect_source_one a p =
    (ground arith, params-one (codes "reconnect-source") a refl p)

-- A written command with two parameters that have neither a comma nor a NUL takes its own branch, and
-- the branch finds those two parameters in their order.
pub two_params_roundtrip :
    (c : TwoParams) (a b : Bytes)
    → IsParam a
    → IsParam b
    → (branch_of (write_two c a b) ≡ two_branch c) × (params (write_two c a b) ≡ a ∷ b ∷ [])
unfolding branch_of starts_with commas
two_params_roundtrip add_output_two a b p q =
    (ground (arith, length-append a (b',' ∷ b)), params-two (codes "add-output") a b refl p q)
two_params_roundtrip remove_output_two a b p q =
    (ground (arith, length-append a (b',' ∷ b)), params-two (codes "remove-output") a b refl p q)

take-set : (n x : ℕ) (l : Bytes) → take n (set l n x) ≡ take n l
take-set zero x [] = refl
take-set zero x (a ∷ l) = refl
take-set (suc n) x [] = refl
take-set (suc n) x (a ∷ l) = ap (◌∷◌ a) (take-set n x l)

take_past : (a b : Bytes) (n k : ℕ) → n ≡ length a + k → take n (a ++ b) ≡ a ++ take k b
take_past [] b n k h = ap (λ i. take i b) (omega (arith, h))
take_past (x ∷ a) b zero k h = absurd (omega (arith, h))
take_past (x ∷ a) b (suc n) k h = ap (◌∷◌ x) (take_past a b n k (omega (arith, h)))

-- The bytes that a message is read as: what `zmq_recv` has stored of it, and then, if it was longer
-- than that, what the array held behind.
abbrev pub as_read : Bytes → Bytes → Bytes
as_read buf msg = take recv_max msg ++ take (length msg - recv_max) (drop recv_max buf)

take-received_into : (buf msg : Bytes) → take (length msg) (received_into buf msg) ≡ as_read buf msg
unfolding received_into
take-received_into buf msg =
    take-set (length msg) 0 (take recv_max msg ++ drop (min (length msg) recv_max) buf)
    ∙ take_past (take recv_max msg) (drop (min (length msg) recv_max) buf) (length msg)
        (length msg - recv_max) (omega (arith, length-take recv_max msg))
    ∙ ap (λ t. take recv_max msg ++ t) (by_size (Bool-cases (leb (length msg) recv_max)))
  where
    by_size :
        (leb (length msg) recv_max ≡ true) ⊎ (leb (length msg) recv_max ≡ false)
        → take (length msg - recv_max) (drop (min (length msg) recv_max) buf)
          ≡ take (length msg - recv_max) (drop recv_max buf)
    by_size (inl e) = rw (short (length msg) e) refl
      where
        short : (n : ℕ) → leb n recv_max ≡ true → n - recv_max ≡ 0
        short n e = ground arith
    by_size (inr e) = ap (λ i. take (length msg - recv_max) (drop i buf)) (long (length msg) e)
      where
        long : (n : ℕ) → leb n recv_max ≡ false → min n recv_max ≡ recv_max
        long n e = ground arith

module _ {F : Type 0} (w : Outside F) (fmt : Format F) (parse : JsonParser) where
  -- A message of less than 256 bytes runs the branch that its bytes select. These are all of the
  -- message up to 248 bytes; what is longer is filled up from what the array held before. A message of
  -- 256 bytes or more makes the program write behind the array.
  pub handle_message_lem :
      (msg : Bytes) (s : Session F)
      → let cmd = as_read s.buf msg in
        (length msg < buf_size)
          × (handle_message w fmt parse msg s
              ≡ run_branch w fmt parse
                  (branch_of cmd)
                  cmd
                  (record s { buf = received_into s.buf msg }))
        ⊎ (buf_size ≤ length msg) × (handle_message w fmt parse msg s ≡ (fault, s))
  unfolding handle_message
  handle_message_lem msg s = elim (Bool-cases (leb buf_size (length msg))) [
    | inl e ↦ inr (at_least_of (length msg) e, if_true _ _ e)
    | inr e ↦ inl (
      below_of (length msg) e,
      if_false _ _ e
          ∙ ap
              (λ c.
                run_branch w fmt parse (branch_of c) c (record s { buf = received_into s.buf msg }))
              (take-received_into s.buf msg),
    )
  ]
    where
      at_least_of : (n : ℕ) → leb buf_size n ≡ true → buf_size ≤ n
      at_least_of n e = ground arith

      below_of : (n : ℕ) → leb buf_size n ≡ false → n < buf_size
      below_of n e = ground arith
