-- ===== src/Examples/Documents.antt =====
-- Receipts, objects and the activity log, at concrete inputs.
use nexium_storage_back.Shared.{
  List, String, arith, drop, false, find_by, leb, length, map, ok, refl, some, sum_where, take, ℕ,
  ◌≡◌, ◌&&◌, ◌+◌, ◌*◌, if◌then◌else◌, [], ◌∷◌, ◌++◌, ◌≤◌,
}
use nexium_storage_back.World.{ActivityLog, World}
use nexium_storage_back.Receipts.{
  PdfLine, after_prefix, body_of, build_pdf, codes, content_of, decimal, digits, escapes, letters,
  match_at, objects_of, padded, pdf_str, replace_from, show_lines, trailer, write_objects,
  xref_entries, xref_entry, xref_head,
}
use nexium_storage_back.Receipts.Reading.{read_string, read_string-pdf_str, win_ansi}
use nexium_storage_back.Receipts.Offsets.{Resolves, build_pdf-Resolves}
use nexium_storage_back.Storage.{ObjectStore, collect, delete_batches, delete_by_prefix}
use nexium_storage_back.Storage.Batches.{AreBatches, concat, delete_by_prefix-sends}
use nexium_storage_back.Logs.{
  Entry, Filter, entries_of, entry_of, insert_entry, limit_of, list, matches, tokens,
}
use nexium_storage_back.Logs.Patterns.{is_literal, is_wanted}
use nexium_storage_back.Logs.Filters.{AreNewestFirst, Each, IsEntryOf, has_user, list-IsFiltered}
use nexium_storage_back.Examples.Fixtures.{db, fine, user}

abbrev line_hi : PdfLine
line_hi = record { text = codes "Hi (1)"; size = 0; bold = false; y = 800 }

abbrev two_pages : List (List String)
two_pages = ("7/a" ∷ "7/b" ∷ []) ∷ ("7/c" ∷ []) ∷ []

abbrev store : ObjectStore
store = record { pages = λ prefix. map ok two_pages; delete_objects = λ keys. ok tt }

abbrev entry : ℕ → ℕ → String → ActivityLog
entry id user_id action = record {
  id = id;
  user_id = user_id;
  action = action;
  resource_type = "file";
  resource_id = "";
  created_at = id;
}

-- Three entries, one of a user who is not in the table.
abbrev logged : World
logged = record {
  db = record db {
    activity_logs = entry 3 1 "file.delete" ∷ entry 2 1 "auth.login" ∷ entry 1 9 "file.upload" ∷ [];
  };
  log = [];
}

abbrev files_only : Filter
files_only = record { user_id = some 1; action = "file."; limit = 10 }

abbrev shown : List Entry
shown = entry_of (entry 3 1 "file.delete") (user 1 (some 1)) ∷ []

read_string-pdf_str_example :
    read_string 0 false (pdf_str (codes "a) Tj (") ++ (41 ∷ (codes " Tj")))
    ≡ some (win_ansi 0 (codes "a) Tj ("), (codes " Tj"))
read_string-pdf_str_example = read_string-pdf_str (codes "a) Tj (") (codes " Tj")

build_pdf-Resolves_example :
    let doc = build_pdf (line_hi ∷ []) in
    let xref_offset = length (body_of (line_hi ∷ [])).0 in
    let first = xref_offset + length xref_head in
    (take (length xref_head) (drop xref_offset doc) ≡ xref_head)
    × Resolves doc first (objects_of (content_of (line_hi ∷ [])))
    × (drop (first + 20 * 6) doc ≡ trailer xref_offset)
unfolding build_pdf objects_of write_objects xref_entries xref_entry padded content_of show_lines
    pdf_str replace_from match_at after_prefix escapes letters digits decimal
build_pdf-Resolves_example = build_pdf-Resolves (line_hi ∷ []) (omega arith)

delete_by_prefix-sends_example :
    (concat (delete_by_prefix store "7/").0 ≡ concat two_pages)
    × AreBatches (delete_by_prefix store "7/").0
unfolding delete_by_prefix collect delete_batches
delete_by_prefix-sends_example = delete_by_prefix-sends store "7/" two_pages refl refl

list-IsFiltered_example :
    let n =
      sum_where
        (λ a. has_user logged.db.users a && is_wanted files_only a)
        (λ a. 1)
        logged.db.activity_logs in
    Each (IsEntryOf files_only logged.db.users logged.db.activity_logs) shown
    × AreNewestFirst shown
    × (length shown ≡ (if leb n (limit_of files_only.limit) then n else limit_of files_only.limit))
    × (length shown ≤ 500)
unfolding is_literal list entries_of insert_entry matches tokens find_by
list-IsFiltered_example = list-IsFiltered files_only fine logged {es = shown} refl refl
