-- ===== src/Handler/Upload/Correct.antt =====
-- What the upload of internal/handler/upload_handler.go stores, and what it answers.
use Prim.Native.String.{◌++◌}
use mathlib.Core.List.{◌++◌ as append}
use clip_sync_admin.Prelude.{
  ℕ, zero, suc, ◌≤◌, ◌<◌, ◌≡◌, refl, String, true, false, ◌⊎◌, inl, inr, Option, some, none, List,
  [], ◌∷◌, contains, ltb, arith, Bool-cases, Option-cases, string_eq,
}
use clip_sync_admin.Prelude.Int.{ℤ, pos, negsuc}
use clip_sync_admin.Text.{to_lower, decimal}
use clip_sync_admin.Reply.{success, fail_with, code_param_error, code_internal_error}
use clip_sync_admin.World.{Env, World}
use clip_sync_admin.Handler.Upload.{
  UploadConfig, UploadHandler, new_upload_handler, System, SaveAnswer, saved, unmade, cut_off,
  DiskFile, FileHeader, UploadReply, ext, sub_dir, trim_slashes, join_commas, by_size, store_image,
  check_image, image, Uploaded,
}

abbrev stored_name : Env → World → FileHeader → String
stored_name env w f = env.uuid w.calls ++ to_lower (ext f.filename)

-- The path of a request: a new name in the directory of the day.
abbrev stored_path : System → Env → World → FileHeader → String
stored_path sys env w f = sub_dir (sys.date w.now) ++ ("/" ++ stored_name env w f)

-- The request has a file that is not empty, and its size and its extension are allowed.
pub record IsAccepted (h : UploadHandler) (file : Option FileHeader) : Type 0 where
  pub header : FileHeader
  pub size : ℕ
  pub given : file ≡ some header
  pub of_size : header.size ≡ pos size
  pub positive : 0 < size
  pub small : size ≤ h.max_size
  pub allowed : contains (to_lower (ext header.filename)) h.allow_ext ≡ true

-- A file is stored as it should: it is accepted, one whole file is added, and the answer tells the
-- name and the size.
pub record IsStored (h : UploadHandler) (sys : System) (file : Option FileHeader) (env : Env)
    (w : World) (files : List DiskFile) (out : Uploaded) : Type 0 where
  pub accepted : IsAccepted h file
  pub reply : UploadReply
  pub answer : out.0 ≡ success (some reply)
  pub named : reply.filename ≡ stored_name env w accepted.header
  pub sized : reply.size ≡ accepted.size
  pub added :
      out.1
      ≡ append files (record { path = stored_path sys env w accepted.header; whole = true } ∷ [])

-- The copy of an accepted file has failed: the answer is an error, and a part of the file stays.
pub record IsCutOff (h : UploadHandler) (sys : System) (file : Option FileHeader) (env : Env)
    (w : World) (files : List DiskFile) (out : Uploaded) : Type 0 where
  pub accepted : IsAccepted h file
  pub message : String
  pub failed : sys.save (stored_path sys env w accepted.header) ≡ cut_off message
  pub answer : out.0 ≡ fail_with code_internal_error ("保存文件失败: " ++ message)
  pub added :
      out.1
      ≡ append files (record { path = stored_path sys env w accepted.header; whole = false } ∷ [])

-- A request that is refused, and adds no file.
abbrev pub IsRejected : List DiskFile → Uploaded → Type 0
IsRejected files out =
    (code : ℕ) × (message : String) × (out.0 ≡ fail_with code message) × (out.1 ≡ files)

abbrev pub IsAnswered :
    UploadHandler → System → Option FileHeader → Env → World → List DiskFile → Uploaded → Type 0
IsAnswered h sys file env w files out =
    IsStored h sys file env w files out
    ⊎ (IsCutOff h sys file env w files out ⊎ IsRejected files out)

SaveAnswer-cases :
    (a : SaveAnswer)
    → (a ≡ saved) ⊎ (((m : String) × (a ≡ cut_off m)) ⊎ ((m : String) × (a ≡ unmade m)))
SaveAnswer-cases saved = inl refl
SaveAnswer-cases (cut_off m) = inr (inl (m, refl))
SaveAnswer-cases (unmade m) = inr (inr (m, refl))

module _ (h : UploadHandler) (sys : System) (f : FileHeader) (env : Env) (w : World)
    (files : List DiskFile) (n : ℕ) where
  store_image-cases :
      f.size ≡ pos (suc n)
      → suc n ≤ h.max_size
      → contains (to_lower (ext f.filename)) h.allow_ext ≡ true
      → IsAnswered h sys
          (some f)
          env
          w
          files
          (store_image h sys (to_lower (ext f.filename)) (suc n) env w files)
  unfolding store_image
  store_image-cases sized small allowed =
      let name = stored_name env w f in
      let path = stored_path sys env w f in
      let accepted : IsAccepted h (some f) = record {
        header = f;
        size = suc n;
        given = refl;
        of_size = sized;
        positive = omega arith;
        small = small;
        allowed = allowed;
      } in
      elim (Option-cases (sys.mkdir (sub_dir (sys.date w.now)))) [
        | inr (x, bad) ↦
            inr (
              inr
                (code_internal_error, "创建上传目录失败: " ++ x, ground (arith, bad), ground (arith, bad)))
        | inl made ↦ elim (SaveAnswer-cases (sys.save path)) [
          | inr (inr (x, bad)) ↦ inr (
              inr (
                code_internal_error,
                "保存文件失败: " ++ x,
                ground (arith, made, bad),
                ground (arith, made, bad),
              ))
          | inr (inl (x, bad)) ↦ inr (
              inl (record {
                accepted = accepted;
                message = x;
                failed = bad;
                answer = ground (arith, made, bad);
                added = ground (arith, made, bad);
              }))
          | inl done ↦ inl (record {
            accepted = accepted;
            reply = record {
              url = trim_slashes h.url_prefix ++ ("/" ++ path);
              filename = name;
              size = suc n;
            };
            answer = ground (arith, made, done);
            named = refl;
            sized = refl;
            added = ground (arith, made, done);
          })
        ]
      ]

  check_image-cases :
      f.size ≡ pos (suc n)
      → 0 < h.max_size
      → IsAnswered h sys (some f) env w files (check_image h sys f.filename (suc n) env w files)
  unfolding check_image
  check_image-cases sized limited = elim (Bool-cases (ltb h.max_size (suc n))) [
    | inl large ↦ inr (
        inr (
          code_param_error,
          "文件大小超过限制 " ++ (decimal h.max_size ++ " 字节"),
          ground (arith, large),
          ground (arith, large),
        ))
    | inr small ↦ elim (Bool-cases (contains (to_lower (ext f.filename)) h.allow_ext)) [
      | inr other ↦ inr (
          inr (
            code_param_error,
            "不支持的文件类型 "
                ++ (sys.quote (to_lower (ext f.filename)) ++ ("，允许：" ++ join_commas h.allow_ext)),
            ground (arith, small, other),
            ground (arith, small, other),
          ))
      | inl allowed ↦
          let e : check_image h sys f.filename (suc n) env w files
              ≡ store_image h sys (to_lower (ext f.filename)) (suc n) env w files =
            ground (arith, small, allowed) in
          rw e (store_image-cases sized (ground (arith, small)) allowed)
    ]
  ]

-- The handler limits the size, whatever its configuration.
new_upload_handler-limits : (c : UploadConfig) → 0 < (new_upload_handler c).max_size
unfolding new_upload_handler
new_upload_handler-limits c = ground arith

image-sized :
    (h : UploadHandler) (sys : System) (f : FileHeader) (env : Env) (w : World)
    (files : List DiskFile) (size : ℤ)
    → f.size ≡ size
    → 0 < h.max_size
    → IsAnswered h sys (some f) env w files (by_size h sys f.filename size env w files)
image-sized h sys f env w files (pos zero) e limited =
    inr (inr (code_param_error, "空文件", refl, refl))
image-sized h sys f env w files (negsuc n) e limited =
    inr (inr (code_param_error, "空文件", refl, refl))
image-sized h sys f env w files (pos (suc n)) e limited =
    check_image-cases h sys f env w files n e limited

-- An upload, for every configuration: the file of the request is stored as `IsStored` says, with a
-- size above 0 and within the limit and with an extension, in small letters, of the list of the
-- handler; or such a file is made and the copy into it fails, and the answer is an error while a part
-- of it stays; or the request is refused and no file is added.
pub image-stores :
    (c : UploadConfig) (sys : System) (file : Option FileHeader) (env : Env) (w : World)
    (files : List DiskFile)
    → IsAnswered
        (new_upload_handler c)
        sys
        file
        env
        w
        files
        (image (new_upload_handler c) sys file env w files)
unfolding image
image-stores c sys none env w files = inr (inr (code_param_error, "缺少上传文件字段 file", refl, refl))
image-stores c sys (some f) env w files =
    image-sized (new_upload_handler c) sys f env w files f.size refl (new_upload_handler-limits c)
