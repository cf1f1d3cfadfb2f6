-- ===== src/Cluster.antt =====
-- What lies outside the repository's own code: the Kubernetes API behind controller-runtime's
-- client, the app registry server behind the go-appr client, the clock and net/url. They are the
-- fields of a record, over a state that every call may change, and no law of them is assumed here.
pub mod Objects
use Prim.Native.Char.{Char}
use operator_marketplace.Common.{String, Option, List}
use operator_marketplace.Common.Maps.{Map}
use operator_marketplace.Common.Errors.{Error, Result}
use operator_marketplace.Api.Meta.{Time, NamespacedName}
use operator_marketplace.Api.OperatorSource.{OperatorSource}
use operator_marketplace.Api.CatalogSourceConfig.{CatalogSourceConfig}
use operator_marketplace.AppRegistry.Decoder.{Archive}
use Objects.{CatalogSource, Deployment, Role, RoleBinding, Service, ServiceAccount}

-- The calls of client.Client at one type of object.
pub record Client (State Object : Type 0) : Type 0 where
  pub get : NamespacedName → State → Result Object × State
  pub create : Object → State → Option Error × State
  pub update : Object → State → Option Error × State
  pub delete : Object → State → Option Error × State

-- appregistry.Options
pub record Options : Type 0 where
  pub source : String
  pub auth_token : String

-- The fields of go-appr's models.Package that the client reads.
pub record Package : Type 0 where
  pub name : String
  pub default : String

pub record Environment : Type 1 where
  pub State : Type 0
  -- clock.Now
  pub now : State → Time
  -- the simple case folding of strings.EqualFold
  pub fold : Char → Char
  -- the lower case of a character in strings.ToLower
  pub lower : Char → Char
  -- the image of the registry server, a flag of the process
  pub registry_server_image : String
  -- the error of url.ParseRequestURI and of url.Parse
  pub parse_request_uri : String → Option Error
  pub parse_url : String → Option Error
  -- the data of a Secret
  pub get_secret : NamespacedName → State → Result (Map String) × State
  pub sources : Client State OperatorSource
  pub configs : Client State CatalogSourceConfig
  -- List with a label selector
  pub list_configs : String → State → Result (List CatalogSourceConfig) × State
  pub catalog_sources : Client State CatalogSource
  pub deployments : Client State Deployment
  pub roles : Client State Role
  pub role_bindings : Client State RoleBinding
  pub services : Client State Service
  -- Create of a Service fills in the object that it is given, also its cluster IP.
  pub create_service : Service → State → (Service × Option Error) × State
  pub service_accounts : Client State ServiceAccount
  -- PackageAppr.ListPackages, ShowPackage (the digest) and PullBlob, and a blob's gzip stream and tar archive
  pub list_packages : Options → Option String → State → Result (List Package) × State
  pub show_package : Options → String → String → String → String → State → Result String × State
  pub pull_blob : Options → String → String → String → State → Result String × State
  pub open_blob : String → Result Archive
  -- the text of an aggregate of errors
  pub show_errors : List Error → String
