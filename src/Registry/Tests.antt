-- ===== src/Registry/Tests.antt =====
-- A registry with one open controller.
use libnvme.Prelude.{◌≡◌, refl, true, Option, none, some, [], ◌∷◌, remove, arith}
use libnvme.Types.{Ret, success, einval}
use libnvme.Ctrlr.Reset.{detach}
use libnvme.Ctrlr.Sample.{env, fresh}
use libnvme.Registry.{same_slot, Registry, ctrlr_get, ctrlr_open, close_found, ctrlr_close}
use libnvme.Registry.Open.{NoneTwice, ctrlr_open-NoneTwice, ctrlr_close-ctrlr_close}

abbrev one_open : Registry
one_open = record {
  ctrlr_head = 0x1000 ∷ [];
  ctrlr = λ _. fresh true;
  slot = λ h. record { domain = 0; bus = h; dev = 0; func = 0 };
}

one_open-NoneTwice : NoneTwice one_open
one_open-NoneTwice = record { once = λ h. ground arith; differ = λ h k p q r. ground (arith, p, q) }

-- The same device again is refused.
ctrlr_open-NoneTwice_example : NoneTwice one_open
unfolding ctrlr_open same_slot
ctrlr_open-NoneTwice_example =
    ctrlr_open-NoneTwice env 3 (λ _. true) [] none 0x2000 (fresh true)
      (some (record { domain = 0; bus = 0x1000; dev = 0; func = 0 })) one_open none one_open
      one_open-NoneTwice (omega arith) refl

abbrev after : Option (Ret × Registry) → Registry
after none = one_open
after (some r) = r.1

ctrlr_close-ctrlr_close_example :
    NoneTwice (after (ctrlr_close env 3 3 (λ _. true) 0x1000 one_open))
    × (ctrlr_close env 3 3
          (λ _. true)
          0x1000
          (after (ctrlr_close env 3 3 (λ _. true) 0x1000 one_open))
        ≡ some (einval, after (ctrlr_close env 3 3 (λ _. true) 0x1000 one_open)))
unfolding ctrlr_close ctrlr_get close_found detach remove
ctrlr_close-ctrlr_close_example =
    ctrlr_close-ctrlr_close env 3 3 (λ _. true) 0x1000 one_open success
      (after (ctrlr_close env 3 3 (λ _. true) 0x1000 one_open)) one_open-NoneTwice refl
