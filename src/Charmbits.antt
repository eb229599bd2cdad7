-- ===== src/Charmbits.antt =====
-- charmbits: the components that charms are made of.
pub mod SimpleRelation
pub mod HttpRelation
pub mod ElasticsearchRelation
pub mod MongodbRelation
pub mod Resource
pub mod Service
pub mod HttpService
pub mod Tests
