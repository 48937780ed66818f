-- ===== src/Receipts/Document.antt =====
-- internal/billing/email.go: `buildPDF`, a document of six objects, with the table of their offsets.
use nexium_storage_back.Shared.{ℕ, Bool, List, [], ◌∷◌, ◌++◌, ◌==◌, length, if◌then◌else◌}
use nexium_storage_back.Receipts.Texts.{Bytes, codes, decimal, padded}
use nexium_storage_back.Receipts.Escapes.{pdf_str}

pub record PdfLine : Type 0 where
  pub text : Bytes
  -- 0 is the default
  pub size : ℕ
  pub bold : Bool
  pub y : ℕ

abbrev newline : Bytes
newline = 10 ∷ []

abbrev font_of : Bool → Bytes
font_of bold = if bold then codes "F2" else codes "F1"

abbrev pub size_of : ℕ → ℕ
size_of size = if size == 0 then 10 else size

-- `/%s %d Tf\n1 0 0 1 50 %d Tm\n(%s) Tj\n`
abbrev show_line : PdfLine → Bytes
show_line l =
    codes "/"
    ++ (font_of l.bold
        ++ (codes " "
            ++ (decimal (size_of l.size)
                ++ (codes " Tf\n"
                    ++ (codes "1 0 0 1 50 "
                        ++ (decimal l.y
                            ++ (codes " Tm\n(" ++ (pdf_str l.text ++ codes ") Tj\n"))))))))

-- A line without a text is left out.
unfoldable pub show_lines : List PdfLine → Bytes
show_lines [] = []
show_lines (l ∷ ls) =
    let rest = show_lines ls in elim l.text [ [] ↦ rest | c ∷ text ↦ show_line l ++ rest ]

-- The draft with relative positions that the code writes first is not used.
unfoldable pub content_of : List PdfLine → Bytes
content_of ls = codes "BT\n" ++ (show_lines ls ++ codes "ET\n")

abbrev content_object : Bytes → Bytes
content_object content =
    codes "4 0 obj\n<</Length "
    ++ (decimal (length content)
        ++ (codes ">>\nstream\n" ++ (content ++ codes "\nendstream\nendobj\n")))

-- The catalogue, the pages, the page, its content and its fonts.
unfoldable pub objects_of : Bytes → List Bytes
objects_of content =
    codes "1 0 obj\n<</Type /Catalog /Pages 2 0 R>>\nendobj\n"
    ∷ codes "2 0 obj\n<</Type /Pages /Kids [3 0 R] /Count 1>>\nendobj\n"
    ∷ codes
        "3 0 obj\n<</Type /Page /Parent 2 0 R /MediaBox [0 0 595 842]\n  /Contents 4 0 R\n  /Resources <</Font <</F1 5 0 R /F2 6 0 R>>>>>>\nendobj\n"
    ∷ content_object content
    ∷ codes
        "5 0 obj\n<</Type /Font /Subtype /Type1 /BaseFont /Helvetica /Encoding /WinAnsiEncoding>>\nendobj\n"
    ∷ codes
        "6 0 obj\n<</Type /Font /Subtype /Type1 /BaseFont /Helvetica-Bold /Encoding /WinAnsiEncoding>>\nendobj\n"
    ∷ []

-- `off[i] = buf.Len()`, then the object is written: the buffer at the end, and the offsets.
unfoldable pub write_objects : Bytes → List Bytes → Bytes × List ℕ
write_objects buf [] = (buf, [])
write_objects buf (o ∷ os) =
    let (end, offsets) = write_objects (buf ++ o) os in (end, length buf ∷ offsets)

-- `%010d 00000 n \n`
unfoldable pub xref_entry : ℕ → Bytes
xref_entry offset = padded 10 offset ++ codes " 00000 n \n"

unfoldable pub xref_entries : List ℕ → Bytes
xref_entries [] = []
xref_entries (n ∷ ns) = xref_entry n ++ xref_entries ns

abbrev pub xref_head : Bytes
xref_head = codes "xref\n0 7\n0000000000 65535 f \n"

abbrev pub trailer : ℕ → Bytes
trailer xref_offset =
    codes "trailer\n<</Size 7 /Root 1 0 R>>\nstartxref\n"
    ++ (decimal xref_offset ++ codes "\n%%EOF\n")

abbrev pub header : Bytes
header = codes "%PDF-1.4\n"

-- The buffer before the table, and the offsets.
abbrev pub body_of : List PdfLine → Bytes × List ℕ
body_of ls = write_objects header (objects_of (content_of ls))

unfoldable pub build_pdf : List PdfLine → Bytes
build_pdf ls =
    let (buf, offsets) = body_of ls in
    buf ++ (xref_head ++ (xref_entries offsets ++ trailer (length buf)))
