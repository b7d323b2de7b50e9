-- ===== src/Ping/Icmp/Replies.antt =====
-- What the samples of the raw-socket backend stand for.
use monitorbeat.Base.{
  ℕ, ◌+◌, ◌≡◌, refl, ap, ap₂, ◌≢◌, ◌⊎◌, inl, inr, Bool-cases, Bool, true, false, Option, none, some,
  List, [], ◌∷◌, ◌++◌, arith, length, any,
}
use monitorbeat.Base.Int.{ℤ, pos, negsuc, leb_int}
use monitorbeat.Ping.Icmp.{
  Message, Body, echo, other_body, is_echo, parse_icmp_message, Turn, cancelled, read_error, packet,
  Attempt, is_matching_echo_reply, read_one_echo,
}

eq_int : (i j : ℤ) → leb_int i j ≡ true → leb_int j i ≡ true → i ≡ j
eq_int (pos m) (pos n) a b = ap pos (ground arith)
eq_int (pos m) (negsuc n) a b = cc a
eq_int (negsuc m) (pos n) a b = cc b
eq_int (negsuc m) (negsuc n) a b = ap negsuc (ground arith)

leb_int_refl : (i : ℤ) → leb_int i i ≡ true
leb_int_refl (pos n) = ground arith
leb_int_refl (negsuc n) = ground arith

module _ (parse_message : List ℕ → Option Message) where
  abbrev pub is_reply : ℤ → ℤ → Turn → Bool
  is_reply id seq cancelled = false
  is_reply id seq read_error = false
  is_reply id seq (packet raw) = is_matching_echo_reply parse_message raw id seq

  is_echo_refl : (id seq : ℤ) → is_echo parse_message id seq (echo id seq) ≡ true
  unfolding is_echo
  is_echo_refl id seq = rw (leb_int_refl id, leb_int_refl seq) refl

  is_echo→≡ : (id seq : ℤ) (b : Body) → is_echo parse_message id seq b ≡ true → b ≡ echo id seq
  unfolding is_echo
  is_echo→≡ id seq other_body h = cc h
  is_echo→≡ id seq (echo i s) h =
      ap₂ echo (eq_int i id (ground (arith, h)) (ground (arith, h)))
        (eq_int s seq (ground (arith, h)) (ground (arith, h)))

  -- What a packet holds, if anything, is the reply: an echo reply, of this id and number.
  abbrev pub IsReply : ℤ → ℤ → Option Message → Type 0
  IsReply id seq none = ⊥
  IsReply id seq (some m) = (m.echo_reply ≡ true) × (m.body ≡ echo id seq)

  -- It is something else: no message, no echo reply, or no echo of this id and number.
  abbrev pub IsOther : ℤ → ℤ → Option Message → Type 0
  IsOther id seq none = Unit
  IsOther id seq (some m) = (m.echo_reply ≡ false) ⊎ (m.body ≢ echo id seq)

  abbrev pub IsNoise : ℤ → ℤ → List Turn → Type 0
  IsNoise id seq [] = Unit
  IsNoise id seq (cancelled ∷ l) = ⊥
  IsNoise id seq (read_error ∷ l) = ⊥
  IsNoise id seq (packet raw ∷ l) =
      IsOther id seq (parse_icmp_message parse_message raw) × IsNoise id seq l

  reply_matches :
      (raw : List ℕ) (id seq : ℤ) (o : Option Message)
      → parse_icmp_message parse_message raw ≡ o
      → IsReply id seq o
      → is_matching_echo_reply parse_message raw id seq ≡ true
  unfolding is_matching_echo_reply
  reply_matches raw id seq none e h = absurd h
  reply_matches raw id seq (some m) e (r, b) =
      rw (is_matching_echo_reply, e, r, b) (is_echo_refl id seq)

  other_mismatches :
      (raw : List ℕ) (id seq : ℤ) (o : Option Message)
      → parse_icmp_message parse_message raw ≡ o
      → IsOther id seq o
      → is_matching_echo_reply parse_message raw id seq ≡ false
  unfolding is_matching_echo_reply
  other_mismatches raw id seq none e h = rw (is_matching_echo_reply, e) refl
  other_mismatches raw id seq (some m) e (inl r) = rw (is_matching_echo_reply, e, r) refl
  other_mismatches raw id seq (some m) e (inr b) =
      elim (Bool-cases (is_echo parse_message id seq m.body)) [
        | inl t ↦ absurd (b (is_echo→≡ id seq m.body t))
        | inr f ↦ rw (is_matching_echo_reply, e, f) (ground arith)
      ]

  -- Whatever packets come first that hold no message, a message that is no echo reply, such as the
  -- request itself, or an echo of another id or number, such as the reply to another probe: an echo
  -- reply of this id and number after them is found; and where the turns hold only such packets,
  -- none is.
  pub read_one_echo_lem :
      (id seq : ℤ) (noise : List Turn) (raw : List ℕ) (rest : List Turn)
      → IsNoise id seq noise
      → IsReply id seq (parse_icmp_message parse_message raw)
      → (read_one_echo parse_message id seq (noise ++ packet raw ∷ rest) ≡ true)
        × (read_one_echo parse_message id seq noise ≡ false)
  unfolding read_one_echo
  read_one_echo_lem id seq [] raw rest n h = (rw (reply_matches raw id seq _ refl h) refl, refl)
  read_one_echo_lem id seq (cancelled ∷ l) raw rest n h = absurd n
  read_one_echo_lem id seq (read_error ∷ l) raw rest n h = absurd n
  read_one_echo_lem id seq (packet r ∷ l) raw rest n h =
      rw (other_mismatches r id seq _ refl n.0) (read_one_echo_lem id seq l raw rest n.1 h)

  -- Each sample is a loss, or the time that a reply to its own request took.
  abbrev pub Answers : ℤ → (ℕ → Attempt) → ℕ → List ℤ → Type 0
  Answers id env seq [] = Unit
  Answers id env seq (negsuc n ∷ l) = (n ≡ 0) × Answers id env (seq + 1) l
  Answers id env seq (pos rtt ∷ l) =
      ((rtt ≡ (env seq).rtt) × (any (is_reply id (pos (seq + 1))) (env seq).turns ≡ true))
      × Answers id env (seq + 1) l

  -- The reply of a request, if there is a time for it.
  abbrev IsTimeOf : ℤ → (ℕ → Attempt) → ℕ → Option ℕ → Type 0
  IsTimeOf id env seq none = Unit
  IsTimeOf id env seq (some rtt) =
      (rtt ≡ (env seq).rtt) × (any (is_reply id (pos (seq + 1))) (env seq).turns ≡ true)

  abbrev IsRun : ℤ → (ℕ → Attempt) → ℕ → ℕ → List ℤ → Type 0
  IsRun id env seq left l = (length l ≡ left) × Answers id env seq l
