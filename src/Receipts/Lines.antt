-- ===== src/Receipts/Lines.antt =====
-- internal/billing/email.go: `generateReceiptPDF`.
use nexium_storage_back.Shared.{ℕ, ◌+◌, ◌-◌, true, false, List, [], ◌∷◌, ◌++◌, ltb, if◌then◌else◌}
use nexium_storage_back.Receipts.Texts.{
  Bytes, codes, repeat, format_xof, format_storage, format_date,
}
use nexium_storage_back.Receipts.Escapes.{pdf_str}
use nexium_storage_back.Receipts.Document.{PdfLine, build_pdf}

-- `receiptData`, with the name, the price and the bytes of its plan.
pub record ReceiptData : Type 0 where
  pub user_name : Bytes
  pub user_email : Bytes
  pub plan_name : Bytes
  pub price_xof : ℕ
  pub storage_bytes : ℕ
  pub period_end : ℕ
  pub payment_at : ℕ
  -- 0 is unknown
  pub fee_xof : ℕ

abbrev line : Bytes → ℕ → PdfLine
line text y = record { text = text; size = 10; bold = false; y = y }

abbrev strong : Bytes → ℕ → ℕ → PdfLine
strong text size y = record { text = text; size = size; bold = true; y = y }

abbrev rule : ℕ → PdfLine
rule y = line (repeat 60 45) y

abbrev total_of : ReceiptData → Bytes
total_of d = codes "Total paye     : " ++ (format_xof (d.price_xof + d.fee_xof) ++ codes " XOF")

-- The fee has a line of its own, if there is one.
abbrev fee_lines : ReceiptData → List PdfLine
fee_lines d =
    if ltb 0 d.fee_xof
    then line (codes "Frais reseau   : +" ++ (format_xof d.fee_xof ++ codes " XOF")) 668
      ∷ strong (total_of d) 10 652
      ∷ []
    else strong (total_of d) 10 668 ∷ []

abbrev y_offset : ReceiptData → ℕ
y_offset d = if ltb 0 d.fee_xof then 16 else 0

unfoldable receipt_lines : ReceiptData → List PdfLine
receipt_lines d =
    let k = y_offset d in
    (strong (codes "NEXIUM STORAGE") 18 790
      ∷ line (codes "console.nexiumai.io") 770
      ∷ record { text = []; size = 0; bold = false; y = 750 }
      ∷ strong (codes "RECU DE PAIEMENT") 13 730
      ∷ rule 718
      ∷ line (codes "Plan           : " ++ d.plan_name) 700
      ∷ line (codes "Sous-total     : " ++ (format_xof d.price_xof ++ codes " XOF")) 684
      ∷ [])
    ++ (fee_lines d
        ++ (line (codes "Stockage       : " ++ format_storage d.storage_bytes) (636 - k)
            ∷ line (codes "Date paiement  : " ++ format_date d.payment_at) (620 - k)
            ∷ line (codes "Valable jusqu  : " ++ format_date d.period_end) (604 - k)
            ∷ rule (592 - k)
            ∷ line (codes "Compte         : " ++ pdf_str d.user_name) (574 - k)
            ∷ line (codes "Email          : " ++ d.user_email) (558 - k)
            ∷ rule (546 - k)
            ∷ line (codes "Merci de votre confiance.") (526 - k)
            ∷ line (codes "Pour toute question : support@nexium.ai") (510 - k)
            ∷ []))

unfoldable generate_receipt_pdf : ReceiptData → Bytes
generate_receipt_pdf d = build_pdf (receipt_lines d)
