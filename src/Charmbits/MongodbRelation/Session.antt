-- ===== src/Charmbits/MongodbRelation/Session.antt =====
-- charmbits/mongodbrelation in an HTTP service whose handler takes one mongodb session.
use gocharm.Base.{String, [], ◌∷◌, Option, none}
use gocharm.Base.{Result}
use gocharm.Base.Dict.{Dict}
use gocharm.Charmbits.HttpService.Fields.{Field, RegisteredRelation, set_field_value}
use gocharm.Charmbits.HttpService.Server.{set}
use gocharm.Charmbits.MongodbRelation.{Mongo, set_field_value as set_session}

abbrev pub nil_session : {Session : Type 0} → String → Option Session
nil_session kind = none

abbrev pub session_field : String → Field
session_field name = record { name = name; kind = "*mgo.Session" }

module _ {W Session : Type 0} (mongo : Mongo W Session)
    (decode_info : String → Result (Option String)) where
  -- What the package registers for the fields of type *mgo.Session.
  abbrev pub session_type : RegisteredRelation W (Option Session) (Option String)
  session_type = record {
    kind = "*mgo.Session";
    unmarshal = decode_info;
    nothing = none;
    set = set_session mongo;
  }

  abbrev pub session_types : Dict (RegisteredRelation W (Option Session) (Option String))
  session_types = ("*mgo.Session", session_type) ∷ []
