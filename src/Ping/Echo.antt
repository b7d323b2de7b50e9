-- ===== src/Ping/Echo.antt =====
-- Echo payloads: tasks/ping/echo.go. A byte slice is a list of numbers below 256; ints are integers.
use monitorbeat.Base.{
  ℕ, zero, suc, ◌-◌, ◌/◌, ◌%◌, ◌+◌, ◌*◌, ◌≤◌, ◌<◌, ◌≡◌, refl, Bool, ◌||◌, List, ◌∷◌, arith, length,
  replicate, length-replicate, All, if◌then◌else◌,
}
use monitorbeat.Base.Int.{ℤ, pos, negsuc, lt_int, is_negative}

pub data EchoError : Type 0 where
  small_payload id_out_of_range seq_out_of_range short_message : EchoError

pub data Result {ℓ} (A : Type ℓ) : Type ℓ where
  ok : A → Result A
  err : EchoError → Result A

-- `echoHeaderSize`.
abbrev pub echo_header_size : ℕ
echo_header_size = 4

-- `binary.LittleEndian.PutUint16` of `uint16(n)`, for an int `n` that is not negative.
abbrev pub put_uint16 : ℕ → List ℕ → List ℕ
put_uint16 n rest = (n % 65536 % 256) ∷ (n % 65536 / 256) ∷ rest

abbrev pub outside_uint16 : ℤ → Bool
outside_uint16 n = is_negative n || lt_int (pos 65535) n

-- The value of an int that was found not negative.
abbrev pub magnitude : ℤ → ℕ
magnitude (pos n) = n
magnitude (negsuc n) = 0

-- `buildEchoMessage`.
unfoldable pub build_echo_message : ℤ → ℤ → ℤ → Result (List ℕ)
build_echo_message id seq payload_size =
    if lt_int payload_size (pos echo_header_size)
    then err small_payload
    else if outside_uint16 id
    then err id_out_of_range
    else if outside_uint16 seq
    then err seq_out_of_range
    else ok (
        put_uint16 (magnitude id)
          (put_uint16 (magnitude seq) (replicate (magnitude payload_size - echo_header_size) 0)))

-- `parseEchoMessage`: id, seq and size.
unfoldable pub parse_echo_message : List ℕ → Result (ℤ × ℤ × ℤ)
parse_echo_message (a ∷ b ∷ c ∷ d ∷ rest) =
    ok (pos (a + 256 * b), pos (c + 256 * d), pos (length (a ∷ b ∷ c ∷ d ∷ rest)))
parse_echo_message msg = err short_message

abbrev message : ℕ → ℕ → ℕ → List ℕ
message i s k = put_uint16 i (put_uint16 s (replicate (k - echo_header_size) 0))

-- What is built stands for numbers in range.
record Built (id seq size : ℤ) (msg : List ℕ) : Type 0 where
  i : ℕ
  s : ℕ
  k : ℕ
  id_eq : id ≡ pos i
  seq_eq : seq ≡ pos s
  size_eq : size ≡ pos k
  msg_eq : msg ≡ message i s k
  id_le : i ≤ 65535
  seq_le : s ≤ 65535
  size_ge : 4 ≤ k

build-Built :
    (id seq size : ℤ) (msg : List ℕ)
    → build_echo_message id seq size ≡ ok msg
    → Built id seq size msg
unfolding build_echo_message
build-Built (pos i) (pos s) (pos k) msg h = record {
  i = i;
  s = s;
  k = k;
  id_eq = refl;
  seq_eq = refl;
  size_eq = refl;
  msg_eq = ground arith;
  id_le = ground arith;
  seq_le = ground arith;
  size_ge = ground arith;
}
build-Built (negsuc i) seq (pos k) msg h = absurd (ground arith)
build-Built (pos i) (negsuc s) (pos k) msg h = absurd (ground arith)
build-Built id seq (negsuc k) msg h = absurd (ground arith)

zeros-IsByte : (n : ℕ) → All (λ b. b < 256) (replicate n 0)
zeros-IsByte zero = tt
zeros-IsByte (suc n) = (omega arith, zeros-IsByte n)

parse-message :
    (i s k : ℕ)
    → i ≤ 65535
    → s ≤ 65535
    → 4 ≤ k
    → parse_echo_message (message i s k) ≡ ok (pos i, pos s, pos k)
unfolding parse_echo_message
parse-message i s k a b c = let nul : ℕ = 0 in ground (arith, length-replicate (k - 4) nul)

-- A message that can be built is parsed to the id, the sequence number and the size it was built
-- from, and each of its bytes is below 256.
pub parse_echo_message-build :
    (id seq size : ℤ) (msg : List ℕ)
    → build_echo_message id seq size ≡ ok msg
    → (parse_echo_message msg ≡ ok (id, seq, size)) × All (λ b. b < 256) msg
parse_echo_message-build id seq size msg h =
    let r = build-Built id seq size msg h in
    rw (r.id_eq, r.seq_eq, r.size_eq, r.msg_eq)
      (
        parse-message r.i r.s r.k r.id_le r.seq_le r.size_ge,
        (omega arith, (omega arith, (omega arith, (omega arith, zeros-IsByte (r.k - 4))))),
      )
