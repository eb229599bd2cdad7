-- ===== src/Charmbits/MongodbRelation.antt =====
-- charmbits/mongodbrelation: the addresses of mongodb servers, and the session of an http service.
pub mod Session
use Prim.Native.String.{◌++◌}
use gocharm.Base.{String, List, [], ◌∷◌, Option, none, some, if◌then◌else◌}
use gocharm.Base.{Act, Result, Error, newf, noted, ok, err, panic, ◌>>=◌, pure, raise, wrap}
use gocharm.Base.Dict.{Dict}
use gocharm.Base.Texts.{is_empty, join}
use gocharm.Charmbits.HttpRelation.{attr, join_host_port}
use gocharm.Charmbits.HttpService.Fields.{err_relation_incomplete, err_restart_needed}
use gocharm.Charmbits.SimpleRelation.{Requirer, strings}
use gocharm.Hook.Context.{Tools}

unfoldable pub unit_address : Dict String → Result String
unit_address vals =
    let host = attr "hostname" vals in
    let port = attr "port" vals in
    if is_empty host
    then ok ""
    else if is_empty port
    then err (newf "mongodb host %q found with no port" (host ∷ []))
    else ok (join_host_port host port)

abbrev pub url_of : List String → String
url_of [] = ""
url_of (a ∷ addrs) = "mongodb://" ++ join (a ∷ addrs) ","

module _ {W : Type 0} (tools : Tools W) where
  unfoldable pub addresses : Requirer → Act W (List String)
  addresses req = strings tools req unit_address

  unfoldable pub url : Requirer → Act W String
  url req = do addrs ← addresses req; pure (url_of addrs)

  -- The data of the field, which is the URL: it is read once for the test and once for the result.
  unfoldable pub field_data : Requirer → Act W String
  field_data req = do u ← url req; if is_empty u then raise err_relation_incomplete else url req

-- mgo.Dial, and Close on what it returns.
pub record Mongo (W : Type 0) (Session : Type 0) : Type 0 where
  pub dial : String → Act W Session
  pub close : Session → W → W

module _ {W Session : Type 0} (mongo : Mongo W Session) where
  -- Sets the field of the relations value; `none` is a nil session, and nil data.
  unfoldable pub set_field_value : Option String → Act (Option Session × W) (Unit {0})
  set_field_value info (some s, w) = (err err_restart_needed, (none, mongo.close s w))
  set_field_value none (none, w) = (ok tt, (none, w))
  set_field_value (some info) (none, w) =
      let (r, w') = wrap (λ e. noted e "cannot dial mongo at %q" (info ∷ [])) (mongo.dial info) w in
      elim r [
        | ok s ↦ (ok tt, (some s, w'))
        | err e ↦ (err e, (none, w'))
        | panic e ↦ (panic e, (none, w'))
      ]
