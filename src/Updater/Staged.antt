-- ===== src/Updater/Staged.antt =====
-- What stands at the path of the staged update, in every state that the calls reach.
use wow_markets.Base.{
  ◌≡◌, ◌≢◌, refl, sym, ap, ◌∙◌, subst, true, false, ◌++◌, some, Result-cases, inl, inr, length,
  length-append, ok, err, codes, arith, str_eq, str_eq_iff,
}
use wow_markets.Base.Strings.{Text}
use wow_markets.Updatefeed.Select.{Release}
use wow_markets.Updater.{UpdateConfiguration, Build, Failure, Files, put}
use wow_markets.Updater.Fetch.{Response, Staging, staged_path, receive, stage, download_update}
use wow_markets.Updater.Offers.{
  IsStagedPath, Offered, Genuine, Configured-IsStagedPath, staged_path_unique, receive-Genuine,
}

-- The file in which the payload is written is another.
longer : (path : Text) → path ++ codes ".download" ≢ path
longer path h = omega (arith, length-append path (codes ".download"), ap length h)

temporary_differs : (path : Text) → str_eq (path ++ codes ".download") path ≡ false
temporary_differs path = ground (arith, longer path, str_eq_iff (path ++ codes ".download") path)

str_eq_refl : (s : Text) → str_eq s s ≡ true
str_eq_refl s = (str_eq_iff s s).1 refl

module _ (build : Build) where
  -- The file at the path is a genuine artifact of the version.
  pub record HoldsVersion (files : Files) (path version : Text) : Type 0 where
    pub content : Text
    pub stands : files path ≡ some content
    pub genuine : Genuine build content version

  pub record Holds (files : Files) (path : Text) : Type 0 where
    pub version : Text
    pub holds : HoldsVersion files path version

  -- What the staging does at its path: nothing, or the payload stands there.
  stage-ok :
      (path payload p : Text) (staging : Staging) (files : Files)
      → (stage build path payload staging files).0 ≡ ok p
      → (p ≡ path) × ((stage build path payload staging files).1 path ≡ some payload)
  unfolding stage put
  stage-ok path payload p staging files h =
      ground
        (arith, temporary_differs path, str_eq_refl path, str_eq_refl (path ++ codes ".download"))

  stage-err :
      (path payload : Text) (e : Failure) (staging : Staging) (files : Files)
      → (stage build path payload staging files).0 ≡ err e
      → (stage build path payload staging files).1 path ≡ files path
  unfolding stage put
  stage-err path payload e staging files h =
      ground (arith, temporary_differs path, str_eq_refl path)

  -- A download that ends without an error has put a genuine artifact at its path.
  pub download-ok :
      (c : UpdateConfiguration) (r : Release) (response : Response) (staging : Staging)
      (files : Files) (p : Text)
      → Offered build c r
      → (download_update build c r response staging files).0 ≡ ok p
      → IsStagedPath build p
        × HoldsVersion (download_update build c r response staging files).1 p r.version
  unfolding download_update
  download-ok c r response staging files p offered h =
      elim (Result-cases (receive build c r response)) [
        | inr (e, failed) ↦ cc (rw (failed, download_update) at h)
        | inl (payload, received) ↦
            let (at_path, stands) =
              stage-ok (staged_path build c) payload p staging files
                (rw (received, download_update) at h) in
            (
              subst (IsStagedPath build) (sym at_path)
                  (Configured-IsStagedPath build c offered.configured),
              record {
                content = payload;
                stands = rw (received, download_update, at_path) stands;
                genuine = receive-Genuine build c r response payload offered received;
              },
            )
      ]

  download-err :
      (c : UpdateConfiguration) (r : Release) (response : Response) (staging : Staging)
      (files : Files) (e : Failure)
      → (download_update build c r response staging files).0 ≡ err e
      → (download_update build c r response staging files).1 (staged_path build c)
        ≡ files (staged_path build c)
  unfolding download_update
  download-err c r response staging files e h = elim (Result-cases (receive build c r response)) [
    | inr (e, failed) ↦ rw (failed, download_update) refl
    | inl (payload, received) ↦
        rw (received, download_update)
          (stage-err (staged_path build c) payload e staging files
            (rw (received, download_update) at h))
  ]

  -- A genuine artifact at the path stays one.
  pub download-Holds :
      (c : UpdateConfiguration) (r : Release) (response : Response) (staging : Staging)
      (files : Files) (path : Text)
      → Offered build c r
      → IsStagedPath build path
      → Holds files path
      → Holds (download_update build c r response staging files).1 path
  download-Holds c r response staging files path offered at_path h =
      elim (Result-cases (download_update build c r response staging files).0) [
        | inl (p, ended) ↦
            let (to_path, holds) = download-ok c r response staging files p offered ended in
            record {
              version = r.version;
              holds =
                  subst
                    (λ q.
                      HoldsVersion (download_update build c r response staging files).1 q r.version)
                    (staged_path_unique build p path to_path at_path) holds;
            }
        | inr (e, ended) ↦
            let same =
              staged_path_unique build (staged_path build c) path
                (Configured-IsStagedPath build c offered.configured) at_path in
            record {
              version = h.version;
              holds = record {
                content = h.holds.content;
                stands =
                    subst (λ q. (download_update build c r response staging files).1 q ≡ files q)
                      same (download-err c r response staging files e ended)
                    ∙ h.holds.stands;
                genuine = h.holds.genuine;
              };
            }
      ]
