-- ===== src/ExampleCharms.antt =====
-- example-charms: the charms that show how the framework is used.
pub mod Concat
pub mod HelloWorld
pub mod Mongodbclient
pub mod Tests
