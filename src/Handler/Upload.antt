-- ===== src/Handler/Upload.antt =====
-- internal/handler/upload_handler.go: the upload of an image. The state is the list of the files
-- below the directory of the uploads.
pub mod Correct
use Prim.Native.Char.{code}
use Prim.Native.String.{String, [], ◌∷◌, ◌++◌, len}
use mathlib.Core.List
use mathlib.Core.List.{◌++◌ as append}
use clip_sync_admin.Prelude.{
  ℕ, zero, suc, ◌-◌, ◌*◌, ◌&&◌, Bool, true, false, Option, none, some, List, contains, ltb, ◌==◌,
  nat_eq, string_eq, if◌then◌else◌,
}
use text.Mathlib.Text.{starts_with}
use clip_sync_admin.Prelude.Int.{ℤ, pos, negsuc}
use clip_sync_admin.Text.{trim_space, to_lower, decimal}
use clip_sync_admin.Config.{UploadConfig}
use clip_sync_admin.Reply.{Response, success, fail_with, code_param_error, code_internal_error}
use clip_sync_admin.World.{Env, World}

-- `UploadHandler`: its settings, of which the size is not negative.
pub record UploadHandler : Type 0 where
  pub dir : String
  pub url_prefix : String
  pub max_size : ℕ
  pub allow_ext : List String

-- The loop that brings the allowed extensions to small letters with a dot.
unfoldable pub normalized : List String → List String
unfolding trim_space to_lower
normalized List.[] = List.[]
normalized (List.◌∷◌ e es) =
    let low = to_lower (trim_space e) in
    let rest = normalized es in
    if low == "" then rest else List.◌∷◌ (if starts_with low "." then low else "." ++ low) rest

abbrev default_ext : List String
default_ext =
    List.◌∷◌ ".jpg"
      (List.◌∷◌ ".jpeg" (List.◌∷◌ ".png" (List.◌∷◌ ".webp" (List.◌∷◌ ".gif" List.[]))))

abbrev or_default_ext : List String → List String
or_default_ext List.[] = default_ext
or_default_ext (List.◌∷◌ e es) = List.◌∷◌ e es

abbrev or_default_size : ℤ → ℕ
or_default_size (pos zero) = 10 * 1024 * 1024
or_default_size (pos (suc n)) = suc n
or_default_size (negsuc n) = 10 * 1024 * 1024

-- `NewUploadHandler`
unfoldable pub new_upload_handler : UploadConfig → UploadHandler
unfolding normalized
new_upload_handler c = record {
  dir = if c.dir == "" then "./data/uploads" else c.dir;
  url_prefix = if c.url_prefix == "" then "/static" else c.url_prefix;
  max_size = or_default_size c.max_size;
  allow_ext = normalized (or_default_ext c.allow_ext);
}

-- What `SaveUploadedFile` comes to: the file is there, or it could not be made, or it was made and the
-- copy into it failed, which leaves a part of it.
pub data SaveAnswer : Type 0 where
  saved : SaveAnswer
  unmade cut_off : (message : String) → SaveAnswer

-- A file by its path below the directory of the uploads, whole or in part.
pub record DiskFile : Type 0 where
  pub path : String
  pub whole : Bool

-- What the handler calls of the system: `os.MkdirAll`, with the text of an error, `SaveUploadedFile`,
-- the date of a time, and the quoting of `%q`.
pub record System : Type 0 where
  pub mkdir : String → Option String
  pub save : String → SaveAnswer
  pub date : ℕ → ℕ × ℕ × ℕ
  pub quote : String → String

-- A file of a form: `multipart.FileHeader`.
pub record FileHeader : Type 0 where
  pub filename : String
  pub size : ℤ

pub record UploadReply : Type 0 where
  pub url : String
  pub filename : String
  pub size : ℕ

-- The text from the last dot of a path's last part on, or what is found so far.
unfoldable pub ext_from : String → String → String
ext_from found [] = found
ext_from found (c ∷ s) =
    ext_from (if code c == b'/' then "" else if code c == b'.' then c ∷ s else found) s

-- `filepath.Ext`
unfoldable pub ext : String → String
unfolding ext_from
ext path = ext_from "" path

zeros : ℕ → String
zeros zero = ""
zeros (suc n) = "0" ++ zeros n

-- `%04d` and `%02d`
padded : ℕ → ℕ → String
unfolding zeros decimal
padded width n = zeros (width - len (decimal n)) ++ decimal n

-- The directory of a day.
unfoldable pub sub_dir : ℕ × ℕ × ℕ → String
unfolding padded
sub_dir (year, month, day) = padded 4 year ++ ("/" ++ (padded 2 month ++ ("/" ++ padded 2 day)))

-- `strings.TrimRight(s, "/")`
unfoldable pub trim_slashes : String → String
trim_slashes [] = []
trim_slashes (c ∷ s) =
    let rest = trim_slashes s in if rest == "" && code c == b'/' then [] else c ∷ rest

-- `strings.Join(list, ",")`
unfoldable pub join_commas : List String → String
join_commas List.[] = ""
join_commas (List.◌∷◌ e List.[]) = e
join_commas (List.◌∷◌ e (List.◌∷◌ f es)) = e ++ ("," ++ join_commas (List.◌∷◌ f es))

abbrev pub Uploaded : Type 0
Uploaded = Response UploadReply × List DiskFile

-- The second half of `Image`: the directory, the file, and the answer.
unfoldable pub store_image :
    UploadHandler → System → String → ℕ → Env → World → List DiskFile → Uploaded
unfolding sub_dir trim_slashes success fail_with
store_image h sys e size env w files =
    let day = sub_dir (sys.date w.now) in
    let name = env.uuid w.calls ++ e in
    let path = day ++ ("/" ++ name) in
    elim (sys.mkdir day) [
      | some x ↦ (fail_with code_internal_error ("创建上传目录失败: " ++ x), files)
      | none ↦ elim (sys.save path) [
        | unmade x ↦ (fail_with code_internal_error ("保存文件失败: " ++ x), files)
        | cut_off x ↦ (
          fail_with code_internal_error ("保存文件失败: " ++ x),
          append files (List.◌∷◌ (record { path = path; whole = false }) List.[]),
        )
        | saved ↦ (
          success (
              some (record {
                url = trim_slashes h.url_prefix ++ ("/" ++ path);
                filename = name;
                size = size;
              })),
          append files (List.◌∷◌ (record { path = path; whole = true }) List.[]),
        )
      ]
    ]

-- `Image`, for a file that is not empty.
unfoldable pub check_image :
    UploadHandler → System → String → ℕ → Env → World → List DiskFile → Uploaded
unfolding store_image ext to_lower join_commas decimal fail_with
check_image h sys filename size env w files =
    let e = to_lower (ext filename) in
    if ltb 0 h.max_size && ltb h.max_size size
    then (fail_with code_param_error ("文件大小超过限制 " ++ (decimal h.max_size ++ " 字节")), files)
    else if contains e h.allow_ext
    then store_image h sys e size env w files
    else (
      fail_with code_param_error
          ("不支持的文件类型 " ++ (sys.quote e ++ ("，允许：" ++ join_commas h.allow_ext))),
      files,
    )

abbrev pub by_size : UploadHandler → System → String → ℤ → Env → World → List DiskFile → Uploaded
by_size h sys filename (pos zero) env w files = (fail_with code_param_error "空文件", files)
by_size h sys filename (pos (suc n)) env w files = check_image h sys filename (suc n) env w files
by_size h sys filename (negsuc n) env w files = (fail_with code_param_error "空文件", files)

-- `Image`; `none` is a form without the field.
unfoldable pub image :
    UploadHandler → System → Option FileHeader → Env → World → List DiskFile → Uploaded
unfolding check_image fail_with
image h sys none env w files = (fail_with code_param_error "缺少上传文件字段 file", files)
image h sys (some f) env w files = by_size h sys f.filename f.size env w files
