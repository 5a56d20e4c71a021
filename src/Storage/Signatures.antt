-- ===== src/Storage/Signatures.antt =====
-- backend/app/services/storage/mime.py: the tables of the types, of their extensions and of the first bytes of files. What
-- libmagic says, the decoding of UTF-8 and the suffix of a path in lower case are parameters.
use doc_mind_ai.Base.{ℕ, String, Option, List, [], ◌∷◌}

abbrev pub Bytes : Type 0
Bytes = List ℕ

pub record Libraries : Type 0 where
  pub from_buffer : Bytes → String  -- `magic.from_buffer(head, mime=True)`
  pub decode : Bytes → Option (List ℕ)  -- the characters of a text in UTF-8
  pub suffix : String → String  -- `Path(filename).suffix.lower()`

abbrev docx : String
docx = "application/vnd.openxmlformats-officedocument.wordprocessingml.document"

abbrev pptx : String
pptx = "application/vnd.openxmlformats-officedocument.presentationml.presentation"

abbrev xlsx : String
xlsx = "application/vnd.openxmlformats-officedocument.spreadsheetml.sheet"

abbrev pub allowed_mimes : List String
allowed_mimes =
    "application/pdf" ∷ docx ∷ pptx ∷ xlsx ∷ "text/plain" ∷ "text/markdown" ∷ "text/html"
    ∷ "image/png" ∷ "image/jpeg" ∷ "image/tiff" ∷ []

abbrev pub mime_to_ext : List (String × String)
mime_to_ext =
    ("application/pdf", ".pdf")
    ∷ (docx, ".docx")
    ∷ (pptx, ".pptx")
    ∷ (xlsx, ".xlsx")
    ∷ ("text/plain", ".txt")
    ∷ ("text/markdown", ".md")
    ∷ ("text/html", ".html")
    ∷ ("image/png", ".png")
    ∷ ("image/jpeg", ".jpg")
    ∷ ("image/tiff", ".tiff")
    ∷ []

abbrev pub mime_aliases : List (String × String)
mime_aliases =
    ("image/jpg", "image/jpeg")
    ∷ ("image/pjpeg", "image/jpeg")
    ∷ ("application/x-pdf", "application/pdf")
    ∷ ("text/x-markdown", "text/markdown")
    ∷ ("text/x-c", "text/plain")
    ∷ ("application/x-empty", "text/plain")
    ∷ ("text/xml", "text/html")
    ∷ []

abbrev pub text_ext_to_mime : List (String × String)
text_ext_to_mime =
    (".md", "text/markdown")
    ∷ (".markdown", "text/markdown")
    ∷ (".mdown", "text/markdown")
    ∷ (".mkd", "text/markdown")
    ∷ (".txt", "text/plain")
    ∷ (".text", "text/plain")
    ∷ (".log", "text/plain")
    ∷ (".html", "text/html")
    ∷ (".htm", "text/html")
    ∷ (".xhtml", "text/html")
    ∷ []

-- All offsets are 0.
abbrev pub binary_signatures : List (Bytes × String)
binary_signatures =
    (137 ∷ 80 ∷ 78 ∷ 71 ∷ 13 ∷ 10 ∷ 26 ∷ 10 ∷ [], "image/png")
    ∷ (255 ∷ 216 ∷ 255 ∷ [], "image/jpeg")
    ∷ (37 ∷ 80 ∷ 68 ∷ 70 ∷ 45 ∷ [], "application/pdf")
    ∷ (73 ∷ 73 ∷ 42 ∷ 0 ∷ [], "image/tiff")
    ∷ (77 ∷ 77 ∷ 0 ∷ 42 ∷ [], "image/tiff")
    ∷ (127 ∷ 69 ∷ 76 ∷ 70 ∷ [], "application/x-elf")
    ∷ (77 ∷ 90 ∷ [], "application/x-dosexec")
    ∷ (202 ∷ 254 ∷ 186 ∷ 190 ∷ [], "application/x-mach-binary")
    ∷ (82 ∷ 97 ∷ 114 ∷ 33 ∷ 26 ∷ 7 ∷ 0 ∷ [], "application/x-rar")
    ∷ (55 ∷ 122 ∷ 188 ∷ 175 ∷ 39 ∷ 28 ∷ [], "application/x-7z-compressed")
    ∷ (31 ∷ 139 ∷ [], "application/gzip")
    ∷ (66 ∷ 90 ∷ 104 ∷ [], "application/x-bzip2")
    ∷ []

abbrev pub zip_magic : Bytes
zip_magic = 80 ∷ 75 ∷ 3 ∷ 4 ∷ []

abbrev pub ooxml_markers : List (Bytes × String)
ooxml_markers =
    (119 ∷ 111 ∷ 114 ∷ 100 ∷ 47 ∷ [], docx)
    ∷ (120 ∷ 108 ∷ 47 ∷ [], xlsx)
    ∷ (112 ∷ 112 ∷ 116 ∷ 47 ∷ [], pptx)
    ∷ []

-- `<!doctype html`, `<html`, `<head`, `<body`
abbrev pub html_prefixes : List Bytes
html_prefixes =
    (60 ∷ 33 ∷ 100 ∷ 111 ∷ 99 ∷ 116 ∷ 121 ∷ 112 ∷ 101 ∷ 32 ∷ 104 ∷ 116 ∷ 109 ∷ 108 ∷ [])
    ∷ (60 ∷ 104 ∷ 116 ∷ 109 ∷ 108 ∷ [])
    ∷ (60 ∷ 104 ∷ 101 ∷ 97 ∷ 100 ∷ [])
    ∷ (60 ∷ 98 ∷ 111 ∷ 100 ∷ 121 ∷ [])
    ∷ []

-- `<?xml`
abbrev pub xml_prefixes : List Bytes
xml_prefixes = (60 ∷ 63 ∷ 120 ∷ 109 ∷ 108 ∷ []) ∷ []
