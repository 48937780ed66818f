-- ===== src/Gateways/Acceptance.antt =====
-- When the client of SasPay returns a payment.
use nexium_storage_back.Shared.{
  ◌≡◌, refl, ◌<◌, ◌⊎◌, inl, inr, String, Option, none, some, ◌=s=◌, leb, arith, Option-cases,
  Bool-cases, false,
}
use nexium_storage_back.Gateways.Answers.{Answer, got}
use nexium_storage_back.Gateways.Saspay.{SaspayPayment, Decoder, unmarshal_payment, saspay_outcome}

-- A payment of SasPay is the one under `data`, where it has an identifier, or else the body itself.
unmarshal_payment-got :
    (d : Decoder) (b : String) {p : SaspayPayment}
    → unmarshal_payment d b ≡ got p
    → ((d.wrapper b ≡ some (some p)) × ((p.id =s= "") ≡ false)) ⊎ (d.payment b ≡ some p)
unfolding unmarshal_payment
unmarshal_payment-got d b {p = p} h = elim (Option-cases (d.wrapper b)) [
  | inl e ↦ absurd (ground (arith, e))
  | inr (inner, e) ↦ elim (Option-cases inner) [
    | inl f ↦ inr (ground (arith, e, f))
    | inr (q, f) ↦ elim (Bool-cases (q.id =s= "")) [
      | inl g ↦ inr (ground (arith, e, f, g))
      | inr g ↦ inl (ground (arith, e, f, g))
    ]
  ]
]

-- The client of SasPay returns a payment only for an answer below 300, and as it is decoded from its body.
saspay_outcome_got :
    (d : Decoder) (o : Option Answer) {p : SaspayPayment}
    → saspay_outcome d o ≡ got p
    → (a : Answer) × ((o ≡ some a)
        × (a.status < 300)
        × (((d.wrapper a.body ≡ some (some p)) × ((p.id =s= "") ≡ false))
            ⊎ (d.payment a.body ≡ some p)))
unfolding saspay_outcome
saspay_outcome_got d none h = absurd (ground arith)
saspay_outcome_got d (some a) {p = p} h = elim (Bool-cases (leb 300 a.status)) [
  | inl e ↦ absurd (ground (arith, e))
  | inr e ↦ (a, (refl, ground (arith, e), unmarshal_payment-got d a.body (ground (arith, e))))
]
