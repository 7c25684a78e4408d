-- ===== src/Auth/Client.antt =====
-- cmd/authn-client/main.go: a command that authenticates a user.
use image_registry_operator.Prelude.{
  ℕ, ◌≡◌, ◌↔◌, refl, sym, ◌∙◌, ap, subst, Bool, true, false, not, ◌||◌, Option, none, some, List,
  [], ◌∷◌, ◌++◌, if◌then◌else◌, arith,
}
use image_registry_operator.Go.Text.{Text, text}
use image_registry_operator.Go.Error.{Error, Result, ok, err, message, ◌>>=◌}
use image_registry_operator.Go.Time.{Time}
use image_registry_operator.Kube.Meta.{NamespacedName}
use image_registry_operator.V1alpha1.{ImageRegistryAccount}
use image_registry_operator.Go.Panic.{Panics, done, panic}
use image_registry_operator.Auth.{Labels, Clients, Authenticator, new_authenticator, authenticate}
use image_registry_operator.Auth.Plugin.{Answer, answer}

-- How the process ends, with what it prints.
pub record Exit : Type 0 where
  pub code : ℕ
  pub out : Text
  pub log : Text

abbrev fails : ℕ → Text → Panics Exit
fails code log = done (record { code = code; out = []; log = log })

pub record Options : Type 0 where
  pub kubeconfig : Text
  pub namespace : Text
  pub user : Text

-- `pflag.Parse` on the defaults, with `pflag.Parsed` and `pflag.Args`, the text of `pflag.Usage`, the
-- environment, `clientcmd.BuildConfigFromFlags`, what `NewAuthenticator` and `Authenticate` call, the
-- clock at the login, and `json.Marshal`.
pub record Process (Cfg Scheme Mapper C : Type 0) : Type 0 where
  pub parse : Options → Options × Bool × List Text
  pub usage : Text
  pub lookup_env : Text → Option Text
  pub from_file : Text → Result Cfg
  pub set_user_agent : Text → Cfg → Cfg
  pub clients : Clients Cfg Scheme Mapper C
  pub get : C → NamespacedName → Result ImageRegistryAccount
  pub matches : Text → Text → Bool
  pub now : Time
  pub marshal : Labels → Result Text

abbrev pub pw_env_var_name : Text
pw_env_var_name = text "KUBE_REGISTRY_PASSWORD"

abbrev pub getenv : {Cfg Scheme Mapper C : Type 0} → Process Cfg Scheme Mapper C → Text → Text
getenv p name = elim (p.lookup_env name) [ none ↦ [] | some value ↦ value ]

abbrev pub no_args : List Text → Bool
no_args [] = true
no_args (a ∷ args) = false

abbrev print_json : Result Text → Panics Exit
print_json (ok json) = done (record { code = 0; out = json; log = [] })
print_json (err e) = panic (message e)

-- From the result of `Authenticate` on.
unfoldable pub print_labels :
    {Cfg Scheme Mapper C : Type 0}
    → Process Cfg Scheme Mapper C
    → Result (Option Labels)
    → Panics Exit
print_labels p (err e) = fails 2 (text "authn error: " ++ message e)
print_labels p (ok none) = fails 3 (text "invalid credentials provided")
print_labels p (ok (some labels)) = print_json (p.marshal labels)

-- `authenticator`, up to the error that ends the process.
unfoldable pub authenticator :
    {Cfg Scheme Mapper C : Type 0}
    → Process Cfg Scheme Mapper C
    → Text
    → Text
    → Result (Authenticator C)
authenticator p kubeconfig namespace = do
  cfg ← p.from_file kubeconfig
  new_authenticator p.clients (p.set_user_agent (text "Image Registry authn CLI") cfg) namespace

-- The one login of the process, behind which the cache is gone.
abbrev pub login :
    {Cfg Scheme Mapper C : Type 0}
    → Process Cfg Scheme Mapper C
    → Authenticator C
    → Text
    → Text
    → Result (Option Labels)
login p a user password =
    (authenticate (p.get a.client) p.matches a.namespace p.now user password a.cache).0

-- `log.Fatal` in `authenticator` ends the process with 1.
abbrev sign_in :
    {Cfg Scheme Mapper C : Type 0} → Process Cfg Scheme Mapper C → Options → Text → Panics Exit
sign_in p options password = elim (authenticator p options.kubeconfig options.namespace) [
  | err e ↦ fails 1 (message e)
  | ok a ↦ print_labels p (login p a options.user password)
]

abbrev pub defaults : {Cfg Scheme Mapper C : Type 0} → Process Cfg Scheme Mapper C → Options
defaults p = record {
  kubeconfig = getenv p (text "KUBECONFIG");
  namespace = getenv p (text "NAMESPACE");
  user = [];
}

-- Behind the flags.
unfoldable pub run :
    {Cfg Scheme Mapper C : Type 0}
    → Process Cfg Scheme Mapper C
    → Options × Bool × List Text
    → Panics Exit
run p (options, parsed, args) =
    if not parsed || not (no_args args)
    then fails 1 p.usage
    else elim (p.lookup_env pw_env_var_name) [
      | none ↦ fails 1 (p.usage ++ (text "env var " ++ (pw_env_var_name ++ text " not set")))
      | some password ↦ sign_in p options password
    ]

unfoldable pub main : {Cfg Scheme Mapper C : Type 0} → Process Cfg Scheme Mapper C → Panics Exit
main p = run p (p.parse (defaults p))

abbrev pub EndsWith : ℕ → Panics Exit → Type 0
EndsWith code m = (x : Exit) × (m ≡ done x) × (x.code ≡ code)

-- The exit code of a process that does not panic.
abbrev code_of : Panics Exit → Option ℕ
code_of (done x) = some x.code
code_of (panic t) = none

abbrev the_number : Option ℕ → ℕ
the_number none = 0
the_number (some n) = n

EndsWith-code_of : (code : ℕ) (m : Panics Exit) → EndsWith code m ↔ (code_of m ≡ some code)
EndsWith-code_of code (done x) =
    (λ (y, e, h). ap code_of e ∙ ap some h, λ h. (x, refl, ap the_number h))
EndsWith-code_of code (panic t) =
    (λ (y, e, h). absurd (ground (arith, e)), λ h. absurd (ground (arith, h)))

-- The exit codes by what the plugin answers.
abbrev Codes : Option ℕ → Answer → Type 0
Codes code a =
    ((code ≡ some 3) ↔ ((a.labels ≡ none) × (a.error ≡ none)))
    × ((code ≡ some 2) ↔ ((e : Error) × (a.error ≡ some e)))

print_json-code :
    (labels : Labels) (json : Result Text)
    → Codes (code_of (print_json json)) (answer (ok (some labels)))
unfolding answer
print_json-code labels (ok json) = (
  (λ h. absurd (omega (arith, ap the_number h)), λ h. absurd (ground (arith, h.0))),
  (λ h. absurd (omega (arith, ap the_number h)), λ h. absurd (ground (arith, h.1))),
)
print_json-code labels (err e) = (
  (λ h. absurd (ground (arith, h)), λ h. absurd (ground (arith, h.0))),
  (λ h. absurd (ground (arith, h)), λ h. absurd (ground (arith, h.1))),
)

print_labels-code :
    {Cfg Scheme Mapper C : Type 0} (p : Process Cfg Scheme Mapper C) (r : Result (Option Labels))
    → Codes (code_of (print_labels p r)) (answer r)
unfolding print_labels answer
print_labels-code p (err e) = (
  (λ h. absurd (ground (arith, h)), λ h. absurd (ground (arith, h))),
  (λ h. (e, refl), λ h. refl),
)
print_labels-code p (ok none) = (
  (λ h. (refl, refl), λ h. refl),
  (λ h. absurd (ground (arith, h)), λ h. absurd (ground (arith, h))),
)
print_labels-code p (ok (some labels)) = print_json-code labels (p.marshal labels)

main-given :
    {Cfg Scheme Mapper C : Type 0} (p : Process Cfg Scheme Mapper C) (options : Options)
    (password : Text)
    → p.parse (defaults p) ≡ (options, true, [])
    → p.lookup_env pw_env_var_name ≡ some password
    → main p ≡ sign_in p options password
unfolding main run
main-given p options password parsed given = ap (run p) parsed ∙ rw given refl

main-sign_in :
    {Cfg Scheme Mapper C : Type 0} (p : Process Cfg Scheme Mapper C) (options : Options)
    (password : Text) (a : Authenticator C)
    → p.parse (defaults p) ≡ (options, true, [])
    → p.lookup_env pw_env_var_name ≡ some password
    → authenticator p options.kubeconfig options.namespace ≡ ok a
    → main p ≡ print_labels p (login p a options.user password)
main-sign_in p options password a parsed given made =
    main-given p options password parsed given
    ∙ ap
        (λ r. elim r [
          | err e ↦ fails 1 (message e)
          | ok x ↦ print_labels p (login p x options.user password)
        ])
        made

-- The command and the plugin agree on every login: the command ends with 3, for invalid
-- credentials, exactly where the plugin answers neither labels nor an error, so that the user counts
-- as anonymous; and with 2 exactly where the plugin answers an error. The command has its
-- arguments, the password and an authenticator.
pub client_and_plugin_agree :
    {Cfg Scheme Mapper C : Type 0} (p : Process Cfg Scheme Mapper C) (options : Options)
    (password : Text) (a : Authenticator C)
    → p.parse (defaults p) ≡ (options, true, [])
    → p.lookup_env pw_env_var_name ≡ some password
    → authenticator p options.kubeconfig options.namespace ≡ ok a
    → (EndsWith 3 (main p) ↔ (
        ((answer (login p a options.user password)).labels ≡ none)
        × ((answer (login p a options.user password)).error ≡ none)))
      × (EndsWith 2 (main p)
          ↔ ((e : Error) × ((answer (login p a options.user password)).error ≡ some e)))
client_and_plugin_agree p options password a parsed given made =
    let same = ap code_of (main-sign_in p options password a parsed given made) in
    let r = login p a options.user password in
    let (rejected, failed) = subst (λ c. Codes c (answer r)) (sym same) (print_labels-code p r) in
    let three = EndsWith-code_of 3 (main p) in
    let two = EndsWith-code_of 2 (main p) in
    (
      (λ h. rejected.0 (three.0 h), λ h. three.1 (rejected.1 h)),
      (λ h. failed.0 (two.0 h), λ h. two.1 (failed.1 h)),
    )
