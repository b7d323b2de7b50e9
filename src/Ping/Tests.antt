-- ===== src/Ping/Tests.antt =====
-- The ping task at concrete inputs.
use monitorbeat.Base.{
  ℕ, ◌<◌, ◌≡◌, refl, true, false, inl, ◌==◌, Option, none, some, List, [], ◌∷◌, arith, All,
}
use monitorbeat.Base.Int.{ℤ, pos, negsuc}
use monitorbeat.Ping.Echo.{ok, build_echo_message, parse_echo_message, parse_echo_message-build}
use monitorbeat.Ping.Result.{initial, summarize}
use monitorbeat.Ping.Result.Bounds.{IsSummary, answered, summarize_lem}
use monitorbeat.Ping.Icmp.{
  Message, echo, Turn, packet, Attempt, PingConfig, icmp_payload, parse_icmp_message, is_echo,
  is_matching_echo_reply, read_one_echo,
}
use monitorbeat.Ping.Icmp.Replies.{read_one_echo_lem}

parse_echo_message-build_example :
    (parse_echo_message (2 ∷ 1 ∷ 7 ∷ 0 ∷ 0 ∷ []) ≡ ok (pos 258, pos 7, pos 5))
    × All (λ b. b < 256) (2 ∷ 1 ∷ 7 ∷ 0 ∷ 0 ∷ [])
unfolding build_echo_message
parse_echo_message-build_example = parse_echo_message-build (pos 258) (pos 7) (pos 5) _ refl

-- One packet of three is lost.
abbrev samples : List ℤ
samples = pos 30 ∷ negsuc 0 ∷ pos 11 ∷ []

summarize_lem_example : IsSummary (summarize samples initial) (answered samples)
summarize_lem_example = summarize_lem samples (omega arith) (omega arith)

-- The first byte tells a reply from a request, and the next two are id and sequence number.
abbrev parse : List ℕ → Option Message
parse (t ∷ id ∷ seq ∷ l) = some (record { echo_reply = t == 0; body = echo (pos id) (pos seq) })
parse l = none

abbrev request : Turn
request = packet (8 ∷ 5 ∷ 1 ∷ [])

read_one_echo_lem_example :
    (read_one_echo parse (pos 5) (pos 1) (request ∷ packet (0 ∷ 5 ∷ 1 ∷ []) ∷ []) ≡ true)
    × (read_one_echo parse (pos 5) (pos 1) (request ∷ []) ≡ false)
unfolding is_matching_echo_reply parse_icmp_message icmp_payload is_echo
read_one_echo_lem_example =
    read_one_echo_lem parse (pos 5) (pos 1) (request ∷ []) (0 ∷ 5 ∷ 1 ∷ []) [] (inl refl, tt)
      (refl, refl)

abbrev config : PingConfig
config = record { count = pos 1; payload_size = pos 56; send_interval = pos 0 }

abbrev answering : ℕ → Attempt
answering seq = record {
  done_before = false;
  marshal_fails = false;
  write_fails = false;
  turns = request ∷ packet (0 ∷ 5 ∷ 1 ∷ []) ∷ [];
  rtt = 42;
  done_in_wait = false;
}
