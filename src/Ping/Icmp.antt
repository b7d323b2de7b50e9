-- ===== src/Ping/Icmp.antt =====
-- The raw-socket backend: tasks/ping/icmp.go. What the socket, the context and the name service do
-- is given; a packet is its list of bytes.
pub mod Replies
use monitorbeat.Base.{
  ℕ, zero, suc, ◌+◌, ◌*◌, ◌/◌, ◌%◌, Bool, true, false, not, ◌&&◌, ◌||◌, ◌==◌, Option, none, some,
  is_some, List, [], ◌∷◌, leb, ltb, length, drop, replicate, if◌then◌else◌,
}
use monitorbeat.Base.Int.{ℤ, pos, negsuc, lt_int, leb_int}
use monitorbeat.Ping.Echo.{ok, err, build_echo_message, magnitude}
use monitorbeat.Ping.Result.{summarize, initial}

-- `icmp.Message` as far as it is read: its type and an echo body.
pub data Body : Type 0 where
  echo : ℤ → ℤ → Body
  other_body : Body

pub record Message : Type 0 where
  pub echo_reply : Bool
  pub body : Body

-- `ipv4.HeaderLen`.
abbrev header_len : ℕ
header_len = 20

-- The ICMP part of a packet that may come with an IPv4 header.
unfoldable pub icmp_payload : List ℕ → Option (List ℕ)
icmp_payload [] = none
icmp_payload (b ∷ rest) =
    let total = suc (length rest) in
    let size = b % 16 * 4 in
    if b / 16 == 4
    then (if ltb size header_len || leb total size then none else some (drop size (b ∷ rest)))
    else some (b ∷ rest)

-- What `readOneEcho` sees in one turn of its loop: the context is done, or what `ReadFrom` gives.
pub data Turn : Type 0 where
  cancelled : Turn
  read_error : Turn
  packet : List ℕ → Turn

-- What happens around one echo request: the context before it and in the wait after it, whether
-- `Marshal` and `WriteTo` work, the turns of the reading and the time a reply took.
pub record Attempt : Type 0 where
  pub done_before : Bool
  pub marshal_fails : Bool
  pub write_fails : Bool
  pub turns : List Turn
  pub rtt : ℕ
  pub done_in_wait : Bool

-- `-1`, for a packet that did not come back.
abbrev pub lost : ℤ
lost = negsuc 0

-- What the backend reads of `PingConfig`.
pub record PingConfig : Type 0 where
  pub count : ℤ
  pub payload_size : ℤ
  pub send_interval : ℤ

-- The number of requests and the payload size that are used.
unfoldable pub used_count : ℤ → ℕ
used_count n = if leb_int n (pos 0) then 2 else magnitude n

unfoldable pub used_payload_size : ℤ → ℤ
used_payload_size n = if lt_int n (pos 8) then pos 56 else n

-- `success` of the result: some packet was received.
unfoldable pub is_success : List ℤ → Bool
is_success samples = ltb 0 (summarize samples initial).received

-- The samples from one request on: what it gives, whether the context ends in the wait after it,
-- and the samples of the requests that are left.
unfoldable pub with_sample : Option ℕ → Bool → ℕ → List ℤ → List ℤ
with_sample none stops left rest = lost ∷ rest
with_sample (some rtt) stops left rest =
    if stops then pos rtt ∷ replicate left lost else pos rtt ∷ rest

-- Given `icmp.ParseMessage`.
module _ (parse_message : List ℕ → Option Message) where
  -- `parseICMPv4Message`.
  unfoldable pub parse_icmp_message : List ℕ → Option Message
  unfolding icmp_payload
  parse_icmp_message raw = elim (icmp_payload raw) [
    | none ↦ none
    | some payload ↦ parse_message payload
  ]

  -- The test of the body.
  unfoldable pub is_echo : ℤ → ℤ → Body → Bool
  is_echo id seq other_body = false
  is_echo id seq (echo i s) = (leb_int i id && leb_int id i) && (leb_int s seq && leb_int seq s)

  -- `isMatchingEchoReply`.
  unfoldable pub is_matching_echo_reply : List ℕ → ℤ → ℤ → Bool
  unfolding parse_icmp_message is_echo
  is_matching_echo_reply raw id seq = elim (parse_icmp_message raw) [
    | none ↦ false
    | some m ↦ m.echo_reply && is_echo id seq m.body
  ]

  -- The loop of `readOneEcho`: whether it returns a reply. The deadline ends the turns by an error.
  unfoldable pub read_one_echo : ℤ → ℤ → List Turn → Bool
  unfolding is_matching_echo_reply
  read_one_echo id seq [] = false
  read_one_echo id seq (cancelled ∷ l) = false
  read_one_echo id seq (read_error ∷ l) = false
  read_one_echo id seq (packet raw ∷ l) =
      if is_matching_echo_reply raw id seq then true else read_one_echo id seq l

  -- The sample of one request; `none` where the loop continues with a lost packet.
  unfoldable pub send_one : ℤ → ℤ → ℤ → Attempt → Option ℕ
  unfolding read_one_echo
  send_one id seq payload_size a = elim (build_echo_message id seq payload_size) [
    | err e ↦ none
    | ok payload ↦
        if a.marshal_fails || a.write_fails
        then none
        else if read_one_echo id seq a.turns
        then some a.rtt
        else none
  ]

  -- The loop of `runICMPBackend` from the sequence number `seq`, with the requests that are left.
  unfoldable pub send_all : ℤ → ℤ → ℤ → (ℕ → Attempt) → ℕ → ℕ → List ℤ
  unfolding with_sample
  send_all id payload_size interval env zero seq = []
  send_all id payload_size interval env (suc left) seq =
      let a = env seq in
      let rest = send_all id payload_size interval env left (seq + 1) in
      let waits = lt_int (pos 0) interval && ltb 0 left in
      if a.done_before
      then replicate (suc left) lost
      else with_sample (send_one id (pos (seq + 1)) payload_size a) (waits && a.done_in_wait) left
          rest

  -- `runICMPBackend` before the metrics: the samples, or none where the target does not resolve or
  -- the socket does not open. `id` is the process id, cut to 16 bits.
  unfoldable pub run_icmp_backend : PingConfig → Bool → Bool → ℕ → (ℕ → Attempt) → Option (List ℤ)
  unfolding send_all used_count used_payload_size
  run_icmp_backend cfg resolves listens pid env =
      if resolves && listens
      then some (
          send_all (pos (pid % 65536)) (used_payload_size cfg.payload_size) cfg.send_interval env
            (used_count cfg.count) 0)
      else none
