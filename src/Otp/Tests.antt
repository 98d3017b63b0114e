-- ===== src/Otp/Tests.antt =====
-- The theorems on services/identity/otp/service.go on a Redis server in memory.
use gpass.Prelude.{any_of, ℕ, String, ◌≡◌, refl, Option, some, List, [], ◌∷◌, arith, ok, err}
use gpass.Otp.Lockout.{verify_all, verify-locked}
use gpass.Otp.Issue.{fresh_session, generate-starts}
use gpass.Otp.Refine.{verify_refines}
use gpass.Otp.Session.{guess, Shows}
use gpass.Otp.Codes.{otp_expired, generate_code, store_code, generate, wrong_code, verify}
use gpass.Otp.Memory.{
  Memory, ends_after, live, put, counted_up, prolonged, erase, apply, apply_all, text_of, number_of,
  memory, memory-IsServer, plain, no_keys,
}

abbrev sixes : ℕ → Option ℕ
sixes turn = some 6

program : Unit {0}
unfolding generate store_code generate_code verify wrong_code verify_all guess apply_all apply put
    erase live ends_after text_of number_of counted_up prolonged any_of
program = tt

abbrev sent : Memory
sent = (generate memory plain 5 0 sixes "r1" "sms" no_keys).0

code_sent : (generate memory plain 5 0 sixes "r1" "sms" no_keys).1 ≡ ok "666666"
unfolding program
code_sent = refl

code_accepted : (verify memory plain 9 "r1" "sms" "666666" sent).1 ≡ ok tt
unfolding program
code_accepted = refl

abbrev wrong_calls : List (ℕ × String)
wrong_calls = (1, "000000") ∷ (1, "111111") ∷ (1, "222222") ∷ []

verify-locked_example :
    (verify memory plain 12 "r1" "sms" "666666"
      (verify_all memory plain 5 "r1" "sms" wrong_calls sent).1).1
    ≡ err otp_expired
unfolding verify_all
verify-locked_example =
    verify-locked memory memory-IsServer plain "r1" "sms" 5 0 sixes "666666" "666666" "666666" 4
      wrong_calls no_keys code_sent refl (refl, (refl, (refl, tt))) (omega arith)

verify_refines_example :
    Shows memory "r1" "sms" 5
      (verify memory plain 5 "r1" "sms" "666666" sent).0
      (guess plain.matches 5 "666666" (fresh_session 5 "666666")).0
    × ((verify memory plain 5 "r1" "sms" "666666" sent).1
        ≡ (guess plain.matches 5 "666666" (fresh_session 5 "666666")).1)
verify_refines_example =
    verify_refines memory memory-IsServer "r1" "sms" plain 5 "666666" sent
      (fresh_session 5 "666666")
      (generate-starts memory memory-IsServer plain "r1" "sms" 5 0 sixes "666666" "666666" no_keys
        code_sent refl)
