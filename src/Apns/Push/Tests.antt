-- ===== src/Apns/Push/Tests.antt =====
-- Runs of reading Apple's answer.
use srechat.Prelude.{◌≡◌, refl, none, some, []}
use srechat.Text.{codes}
use srechat.Apns.Push.{push_result}

unregistered :
    push_result (some (codes "{\"reason\":\n\"Unregistered\"}\n410", []))
    ≡ (410, codes "{\"reason\":\n\"Unregistered\"}")
unfolding push_result
unregistered = refl

no_status :
    push_result (some (codes "\n", codes "curl: (6) no host")) ≡ (0, codes "curl: (6) no host")
unfolding push_result
no_status = refl

no_answer : push_result none ≡ (0, codes "curl timed out")
unfolding push_result
no_answer = refl
